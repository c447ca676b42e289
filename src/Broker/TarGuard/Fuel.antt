-- ===== src/Broker/TarGuard/Fuel.antt =====
-- The loop of `walk` (restore-tar-guard.ts) ends: each round that continues takes bytes off the
-- buffer, or is the one that finds the end of the archive.
use docker_webmail_gui.Broker.TarGuard.{
  Rejection, RestoreTarGuard, is_rejected, reject, push_consumed, Round, stop, more, is_empty,
  forward, judged, admit_sized, admit_entry, entry_size, entry_type, entry_name, entry_link,
  forget_preamble, hold, read_pax, read_meta_header, meta_round, typed_round, sized_round,
  header_round, pass_data, smaller, walk_round, walk, walk_on, running_round, received, transform,
  max_meta_body_bytes, is_meta, is_accepted, unless_empty,
}
use docker_webmail_gui.Broker.TarGuard.Header.{
  Decoder, PaxRecords, block_size, read_number, checksum_matches, parse_pax_records,
  round_up_to_block,
}
use docker_webmail_gui.Broker.TarGuard.Paths.{Problem, problem_with, linked}
use mathlib.Core.Path.{subst}
use docker_webmail_gui.Common.{
  ◌++◌, suc, sym, Codes, List, Option, all, arith, before_code, drop, false, get_or, if_ind,
  if◌then◌else◌, length, length-drop, ltb, ltb-false→le, none, not, refl, some, take, true, ℕ, ◌+◌,
  ◌<◌, ◌==◌, ◌∷◌, ◌≡◌, ◌≤◌, [], ltb→lt, zero,
}

abbrev pub rounds_left : RestoreTarGuard → ℕ
rounds_left g = length g.buffered + (if g.ended then 0 else 1)

-- Behind the end of the archive nothing stays in the buffer.
abbrev pub IsSettled : RestoreTarGuard → Type 0
IsSettled g = g.rejection ≡ none → g.ended ≡ true → g.buffered ≡ []

abbrev RoundShrinks : ℕ → Round → Type 0
RoundShrinks n (stop g) = IsSettled g
RoundShrinks n (more g) = rounds_left g < n

reject-IsSettled : (reason : Rejection) (g : RestoreTarGuard) → IsSettled (reject reason g)
unfolding reject
reject-IsSettled reason g r e = refl

running-IsSettled : (g : RestoreTarGuard) → g.ended ≡ false → IsSettled g
running-IsSettled g e r e' = cc

hold_shrinks :
    (n : ℕ) (g : RestoreTarGuard)
    → g.ended ≡ false
    → n ≤ length g.buffered
    → 0 < n
    → rounds_left (hold n g) < length g.buffered + 1
unfolding hold
hold_shrinks n g e h k = rw e (omega (arith, length-drop n g.buffered))

forward_shrinks :
    (kind size : ℕ) (g : RestoreTarGuard)
    → g.ended ≡ false
    → 512 ≤ length g.buffered
    → rounds_left (forward kind size g) < length g.buffered + 1
unfolding forward push_consumed
forward_shrinks kind size g e h = rw e (omega (arith, length-drop 512 g.buffered))

pub not_none : (g : RestoreTarGuard) → is_rejected g ≡ true → g.rejection ≡ none → ⊥
not_none g e r = ground arith

module _ (utf8 : Decoder) where
  judged-RoundShrinks :
      (kind : ℕ) (name : Codes) (size : ℕ) (g : RestoreTarGuard) (o : Option Problem)
      → g.ended ≡ false
      → 512 ≤ length g.buffered
      → RoundShrinks (length g.buffered + 1) (judged kind name size g o)
  judged-RoundShrinks kind name size g (some problem) e h = reject-IsSettled _ g
  judged-RoundShrinks kind name size g none e h =
      forward_shrinks kind size (record g { symlinks = linked kind name g.symlinks }) e h

  admit_sized-RoundShrinks :
      (g : RestoreTarGuard) (header : List ℕ) (raw : ℕ) (o : Option ℕ)
      → g.ended ≡ false
      → 512 ≤ length g.buffered
      → RoundShrinks (length g.buffered + 1) (admit_sized utf8 g header raw o)
  admit_sized-RoundShrinks g header raw none e h = reject-IsSettled _ g
  admit_sized-RoundShrinks g header raw (some size) e h =
      judged-RoundShrinks (entry_type raw (entry_name utf8 g header)) (entry_name utf8 g header)
        size (forget_preamble g)
        (problem_with g.root_name g.symlinks (entry_type raw (entry_name utf8 g header))
          (entry_name utf8 g header) (entry_link utf8 g header))
        e h

  read_pax-RoundShrinks :
      (kind total : ℕ) (g : RestoreTarGuard) (o : Option PaxRecords)
      → g.ended ≡ false
      → total ≤ length g.buffered
      → 0 < total
      → RoundShrinks (length g.buffered + 1) (read_pax kind total g o)
  read_pax-RoundShrinks kind total g none e h p = reject-IsSettled _ g
  read_pax-RoundShrinks kind total g (some records) e h p =
      if_ind (λ g'. rounds_left (hold total g') < length g.buffered + 1) (kind == b'x')
        (record g { pax_records = some records }) g
        (λ x. hold_shrinks total (record g { pax_records = some records }) e h p)
        (λ x. hold_shrinks total g e h p)

  meta_round-RoundShrinks :
      (g : RestoreTarGuard) (kind size : ℕ)
      → g.ended ≡ false
      → RoundShrinks (length g.buffered + 1) (meta_round utf8 g kind size)
  unfolding meta_round read_meta_header
  meta_round-RoundShrinks g kind size e =
      let n : ℕ = block_size + round_up_to_block size in
      if_ind (RoundShrinks (length g.buffered + 1)) (ltb max_meta_body_bytes size) _ _
        (λ h. reject-IsSettled _ g)
        (λ h.
          if_ind (RoundShrinks (length g.buffered + 1)) (ltb (length g.buffered) n) _ _
            (λ k. running-IsSettled g e)
            (λ k.
              let fits : n ≤ length g.buffered = ltb-false→le (length g.buffered) n k in
              let body : List ℕ = take size (drop block_size g.buffered) in
              if_ind (RoundShrinks (length g.buffered + 1)) (kind == b'L') _ _
                (λ l.
                  hold_shrinks n
                    (record g { gnu_long_name = unless_empty (utf8 (before_code 0 body)) }) e fits
                    (omega arith))
                (λ l.
                  if_ind (RoundShrinks (length g.buffered + 1)) (kind == b'K') _ _
                    (λ m.
                      hold_shrinks n
                        (record g { gnu_long_link = unless_empty (utf8 (before_code 0 body)) }) e
                        fits (omega arith))
                    (λ m.
                      read_pax-RoundShrinks kind n g (parse_pax_records utf8 body) e fits
                        (omega arith)))))

  sized_round-RoundShrinks :
      (g : RestoreTarGuard) (header : List ℕ) (o : Option ℕ)
      → g.ended ≡ false
      → 512 ≤ length g.buffered
      → RoundShrinks (length g.buffered + 1) (sized_round utf8 g header o)
  unfolding typed_round admit_entry
  sized_round-RoundShrinks g header none e h = reject-IsSettled _ g
  sized_round-RoundShrinks g header (some size) e h =
      let kind : ℕ = get_or header 156 0 in
      if_ind (RoundShrinks (length g.buffered + 1)) (is_meta kind) _ _
        (λ k. meta_round-RoundShrinks g kind size e)
        (λ k.
          if_ind (RoundShrinks (length g.buffered + 1)) (not (is_accepted kind)) _ _
            (λ l. reject-IsSettled _ g)
            (λ l. admit_sized-RoundShrinks g header kind (entry_size g size) e h))

  header_round-RoundShrinks :
      (g : RestoreTarGuard) (header : List ℕ)
      → g.ended ≡ false
      → 512 ≤ length g.buffered
      → RoundShrinks (length g.buffered + 1) (header_round utf8 g header)
  unfolding header_round
  header_round-RoundShrinks g header e h =
      if_ind (RoundShrinks (length g.buffered + 1)) (all (λ byte. byte == 0) header) _ _
        (λ k.
          if_ind (RoundShrinks (length g.buffered + 1)) (is_empty g.held) _ _ (λ l. omega arith)
            (λ l. reject-IsSettled _ g))
        (λ k.
          if_ind (RoundShrinks (length g.buffered + 1)) (not (checksum_matches utf8 header)) _ _
            (λ l. reject-IsSettled _ g)
            (λ l. sized_round-RoundShrinks g header (read_number utf8 header 124 12) e h))

  drop_all : (xs : List ℕ) → drop (length xs) xs ≡ []
  drop_all [] = refl
  drop_all (x ∷ xs) = drop_all xs

  data_shrinks :
      (g : RestoreTarGuard)
      → g.ended ≡ false
      → 0 < g.data_remaining
      → is_empty g.buffered ≡ false
      → rounds_left (pass_data (smaller g.data_remaining (length g.buffered)) g)
        < length g.buffered + 1
  unfolding pass_data push_consumed
  data_shrinks g e d k =
      let n : ℕ = smaller g.data_remaining (length g.buffered) in
      let there : 0 < length g.buffered = ground arith in
      let some_bytes : 0 < n = ground arith in rw e (omega (arith, length-drop n g.buffered))

  running_round-RoundShrinks :
      (g : RestoreTarGuard)
      → g.ended ≡ false
      → RoundShrinks (length g.buffered + 1) (running_round utf8 g)
  unfolding running_round
  running_round-RoundShrinks g e =
      if_ind (RoundShrinks (length g.buffered + 1)) (ltb 0 g.data_remaining) _ _
        (λ d.
          if_ind (RoundShrinks (length g.buffered + 1)) (is_empty g.buffered) _ _
            (λ k. running-IsSettled g e) (λ k. data_shrinks g e (ltb→lt 0 g.data_remaining d) k))
        (λ d.
          if_ind (RoundShrinks (length g.buffered + 1)) (ltb (length g.buffered) block_size) _ _
            (λ k. running-IsSettled g e)
            (λ k.
              header_round-RoundShrinks g (take block_size g.buffered) e
                (ltb-false→le (length g.buffered) 512 k)))

  rounds_left_running :
      (g : RestoreTarGuard) → g.ended ≡ false → rounds_left g ≡ length g.buffered + 1
  rounds_left_running g e = ground arith

  walk_round-RoundShrinks : (g : RestoreTarGuard) → RoundShrinks (rounds_left g) (walk_round utf8 g)
  unfolding walk_round push_consumed
  walk_round-RoundShrinks g =
      if_ind (RoundShrinks (rounds_left g)) g.ended _ _ (λ e r x. drop_all g.buffered)
        (λ e.
          subst (λ n. RoundShrinks n (running_round utf8 g)) (sym (rounds_left_running g e))
            (running_round-RoundShrinks g e))

  walk_on-IsSettled :
      (fuel n : ℕ) (r : Round)
      → ((g : RestoreTarGuard) → rounds_left g < fuel → IsSettled (walk utf8 fuel g))
      → n ≤ fuel
      → RoundShrinks n r
      → IsSettled (walk_on (walk utf8 fuel) r)
  walk_on-IsSettled fuel n (stop g) k le h = h
  walk_on-IsSettled fuel n (more g) k le h = k g (omega arith)

  -- With more fuel than rounds left, the loop runs to its end.
  pub walk-IsSettled :
      (fuel : ℕ) (g : RestoreTarGuard) → rounds_left g < fuel → IsSettled (walk utf8 fuel g)
  unfolding walk
  walk-IsSettled zero g h = elim h [ ]
  walk-IsSettled (suc fuel) g h =
      if_ind IsSettled (is_rejected g) _ _ (λ e r x. absurd (not_none g e r))
        (λ e.
          walk_on-IsSettled fuel (rounds_left g) (walk_round utf8 g) (walk-IsSettled fuel)
            (omega arith) (walk_round-RoundShrinks g))

  -- The loop from a state ends in another, however many rounds that takes: it is left by its test, by a
  -- round that returns, or after a round that continues.
  pub data Ends : RestoreTarGuard → RestoreTarGuard → Type 0 where
    leaves : (g : RestoreTarGuard) → is_rejected g ≡ true → Ends g g
    returns :
        (g last : RestoreTarGuard)
        → is_rejected g ≡ false
        → walk_round utf8 g ≡ stop last
        → Ends g last
    continues :
        (g next last : RestoreTarGuard)
        → is_rejected g ≡ false
        → walk_round utf8 g ≡ more next
        → Ends next last
        → Ends g last

  walk_on-Ends :
      (fuel n : ℕ) (g : RestoreTarGuard) (r : Round)
      → ((next : RestoreTarGuard) → rounds_left next < fuel → Ends next (walk utf8 fuel next))
      → n ≤ fuel
      → is_rejected g ≡ false
      → walk_round utf8 g ≡ r
      → RoundShrinks n r
      → Ends g (walk_on (walk utf8 fuel) r)
  walk_on-Ends fuel n g (stop last) k le e round h = returns g last e round
  walk_on-Ends fuel n g (more next) k le e round h =
      continues g next (walk utf8 fuel next) e round (k next (omega arith))

  -- The loop of `walk` ends, from any state, and in the state that the model computes where the fuel is more
  -- than the bytes in the buffer, and one more where the archive's end was not found yet.
  pub walk-Ends :
      (fuel : ℕ) (g : RestoreTarGuard) → rounds_left g < fuel → Ends g (walk utf8 fuel g)
  unfolding walk
  walk-Ends zero g h = elim h [ ]
  walk-Ends (suc fuel) g h =
      if_ind (Ends g) (is_rejected g) g (walk_on (walk utf8 fuel) (walk_round utf8 g)) (leaves g)
        (λ e.
          walk_on-Ends fuel (rounds_left g) g (walk_round utf8 g) (walk-Ends fuel) (omega arith) e
            refl (walk_round-RoundShrinks g))

  rounds_left-received :
      (chunk : List ℕ) (g : RestoreTarGuard)
      → g.ended ≡ false
      → rounds_left (received chunk g) < length (g.buffered ++ chunk) + 2
  rounds_left-received chunk g e = ground arith

  pub transform-IsSettled :
      (chunk : List ℕ) (g : RestoreTarGuard) → IsSettled g → IsSettled (transform utf8 chunk g)
  unfolding transform
  transform-IsSettled chunk g h =
      if_ind IsSettled (is_rejected g) _ _ (λ e. h)
        (λ e.
          if_ind IsSettled g.ended _ _ (λ k. h)
            (λ k.
              walk-IsSettled (length (g.buffered ++ chunk) + 2) (received chunk g)
                (rounds_left-received chunk g k)))
