-- ===== src/Broker/TarGuard/PassThrough.antt =====
-- What the guard pushes of what it is given (restore-tar-guard.ts).
use docker_webmail_gui.Broker.TarGuard.Fuel.{not_none, IsSettled, transform-IsSettled}
use docker_webmail_gui.Broker.TarGuard.{
  Rejection, RestoreTarGuard, new_guard, is_rejected, reject, push_consumed, Round, stop, more,
  is_empty, forward, judged, admit_sized, admit_entry, entry_size, entry_type, entry_name,
  entry_link, forget_preamble, hold, read_pax, read_meta_header, meta_round, typed_round,
  sized_round, header_round, pass_data, smaller, walk_round, walk, walk_on, running_round, received,
  transform, flush, unfinished, feed, restore, max_meta_body_bytes, is_meta, is_accepted,
  unless_empty,
}
use docker_webmail_gui.Broker.TarGuard.Header.{
  Decoder, PaxRecords, block_size, read_number, checksum_matches, parse_pax_records,
  round_up_to_block,
}
use docker_webmail_gui.Broker.TarGuard.Paths.{Problem, problem_with, linked}
use docker_webmail_gui.Common.{
  Bool-cases, ◌&&◌, sym, ap, ◌∙◌, zero, suc, inl, inr, ◌+◌, Codes, List, Option, append-nil,
  append_assoc, concat, false, if_ind, none, refl, some, take, take-append-drop, true, ℕ, ◌++◌,
  ◌==◌, ◌∷◌, ◌≡◌, [], before_code, ltb, arith, get_or, not, all, length, drop, ltb→lt, ◌<◌,
  Bool-cases,
}

-- All of the input is pushed, held or buffered, in this order.
abbrev pub Whole : List ℕ → RestoreTarGuard → Type 0
Whole input g = g.pushed ++ (concat g.held ++ g.buffered) ≡ input

-- What was pushed is a start of the input, and nothing is lost but after a rejection.
pub record IsKept (input : List ℕ) (g : RestoreTarGuard) : Type 0 where
  pub lost : List ℕ
  pub start : g.pushed ++ lost ≡ input
  pub clean : g.rejection ≡ none → Whole input g
  pub quiet : g.ended ≡ true → g.held ≡ []
  pub in_data : 0 < g.data_remaining → g.held ≡ []

-- Between two entries, where the next block is a header.
pub record AtHeader (input : List ℕ) (g : RestoreTarGuard) : Type 0 where
  pub whole : Whole input g
  pub running : g.ended ≡ false
  pub idle : ltb 0 g.data_remaining ≡ false

abbrev RoundKept : List ℕ → Round → Type 0
RoundKept input (stop g) = IsKept input g
RoundKept input (more g) = IsKept input g

Whole-IsKept :
    (input : List ℕ) (g : RestoreTarGuard)
    → Whole input g
    → (g.ended ≡ true → g.held ≡ [])
    → (0 < g.data_remaining → g.held ≡ [])
    → IsKept input g
Whole-IsKept input g w q d = record {
  lost = concat g.held ++ g.buffered;
  start = w;
  clean = λ e. w;
  quiet = q;
  in_data = d;
}

reject-IsKept :
    (input : List ℕ) (reason : Rejection) (g : RestoreTarGuard)
    → Whole input g
    → IsKept input (reject reason g)
unfolding reject
reject-IsKept input reason g w = record {
  lost = concat g.held ++ g.buffered;
  start = w;
  clean = λ e. cc;
  quiet = λ e. refl;
  in_data = λ e. refl;
}

concat-snoc : (xs : List (List ℕ)) (x : List ℕ) → concat (xs ++ x ∷ []) ≡ concat xs ++ x
concat-snoc [] x = append-nil x
concat-snoc (y ∷ xs) x = rw (concat-snoc xs x, append_assoc)

hold-Whole : (input : List ℕ) (n : ℕ) (g : RestoreTarGuard) → Whole input g → Whole input (hold n g)
unfolding hold
hold-Whole input n g w =
    rw (concat-snoc g.held (take n g.buffered), append_assoc, take-append-drop n g.buffered) w

push_consumed-Whole :
    (input : List ℕ) (n : ℕ) (g : RestoreTarGuard)
    → g.held ≡ []
    → Whole input g
    → Whole input (push_consumed n g)
unfolding push_consumed
push_consumed-Whole input n g empty w =
    let w' : g.pushed ++ g.buffered ≡ input = rw empty at w in
    rw (empty, append_assoc, take-append-drop n g.buffered) w'

forward-Whole :
    (input : List ℕ) (kind size : ℕ) (g : RestoreTarGuard)
    → Whole input g
    → Whole input (forward kind size g)
unfolding forward
forward-Whole input kind size g w =
    push_consumed-Whole input block_size
      (record g { pushed = g.pushed ++ concat g.held; held = [] }) refl (rw append_assoc w)

not_running : (g : RestoreTarGuard) → ltb 0 g.data_remaining ≡ false → 0 < g.data_remaining → ⊥
not_running g z d = ground arith

forward-IsKept :
    (input : List ℕ) (kind size : ℕ) (g : RestoreTarGuard)
    → Whole input g
    → IsKept input (forward kind size g)
unfolding forward push_consumed
forward-IsKept input kind size g w =
    Whole-IsKept input _ (forward-Whole input kind size g w) (λ e. refl) (λ e. refl)

hold-IsKept :
    (input : List ℕ) (n : ℕ) (g : RestoreTarGuard)
    → Whole input g
    → g.ended ≡ false
    → ltb 0 g.data_remaining ≡ false
    → IsKept input (hold n g)
unfolding hold
hold-IsKept input n g w e z =
    Whole-IsKept input _ (hold-Whole input n g w) (λ e'. cc) (λ d. absurd (not_running g z d))

AtHeader-IsKept : (input : List ℕ) (g : RestoreTarGuard) → AtHeader input g → IsKept input g
AtHeader-IsKept input g w =
    let e = w.running in
    Whole-IsKept input g w.whole (λ e'. cc) (λ d. absurd (not_running g w.idle d))

empty_held : (g : RestoreTarGuard) → is_empty g.held ≡ true → g.held ≡ []
empty_held g h = ground arith

module _ (utf8 : Decoder) (input : List ℕ) where
  judged-RoundKept :
      (kind : ℕ) (name : Codes) (size : ℕ) (g : RestoreTarGuard) (o : Option Problem)
      → Whole input g
      → RoundKept input (judged kind name size g o)
  judged-RoundKept kind name size g (some problem) w = reject-IsKept input _ g w
  judged-RoundKept kind name size g none w =
      forward-IsKept input kind size (record g { symlinks = linked kind name g.symlinks }) w

  admit_sized-RoundKept :
      (g : RestoreTarGuard) (header : List ℕ) (raw : ℕ) (o : Option ℕ)
      → Whole input g
      → RoundKept input (admit_sized utf8 g header raw o)
  admit_sized-RoundKept g header raw none w = reject-IsKept input _ g w
  admit_sized-RoundKept g header raw (some size) w =
      judged-RoundKept (entry_type raw (entry_name utf8 g header)) (entry_name utf8 g header) size
        (forget_preamble g)
        (problem_with g.root_name g.symlinks (entry_type raw (entry_name utf8 g header))
          (entry_name utf8 g header) (entry_link utf8 g header))
        w

  read_pax-RoundKept :
      (kind total : ℕ) (g : RestoreTarGuard) (o : Option PaxRecords)
      → AtHeader input g
      → RoundKept input (read_pax kind total g o)
  read_pax-RoundKept kind total g none w = reject-IsKept input _ g w.whole
  read_pax-RoundKept kind total g (some records) w =
      if_ind (λ g'. IsKept input (hold total g')) (kind == b'x')
        (record g { pax_records = some records }) g
        (λ h.
          hold-IsKept input total (record g { pax_records = some records }) w.whole w.running
            w.idle)
        (λ h. hold-IsKept input total g w.whole w.running w.idle)

  read_meta_header-RoundKept :
      (g : RestoreTarGuard) (kind total : ℕ) (body : List ℕ)
      → AtHeader input g
      → RoundKept input (read_meta_header utf8 g kind total body)
  unfolding read_meta_header
  read_meta_header-RoundKept g kind total body w =
      if_ind (RoundKept input) (kind == b'L') _ _
        (λ h.
          hold-IsKept input total
            (record g { gnu_long_name = unless_empty (utf8 (before_code 0 body)) }) w.whole
            w.running w.idle)
        (λ h.
          if_ind (RoundKept input) (kind == b'K') _ _
            (λ k.
              hold-IsKept input total
                (record g { gnu_long_link = unless_empty (utf8 (before_code 0 body)) }) w.whole
                w.running w.idle)
            (λ k. read_pax-RoundKept kind total g (parse_pax_records utf8 body) w))

  meta_round-RoundKept :
      (g : RestoreTarGuard) (kind size : ℕ)
      → AtHeader input g
      → RoundKept input (meta_round utf8 g kind size)
  unfolding meta_round
  meta_round-RoundKept g kind size w =
      if_ind (RoundKept input) (ltb max_meta_body_bytes size) _ _
        (λ h. reject-IsKept input _ g w.whole)
        (λ h.
          if_ind (RoundKept input) (ltb (length g.buffered) (block_size + round_up_to_block size)) _
            _ (λ k. AtHeader-IsKept input g w)
            (λ k.
              read_meta_header-RoundKept g kind (block_size + round_up_to_block size)
                (take size (drop block_size g.buffered)) w))

  typed_round-RoundKept :
      (g : RestoreTarGuard) (header : List ℕ) (kind size : ℕ)
      → AtHeader input g
      → RoundKept input (typed_round utf8 g header kind size)
  unfolding typed_round admit_entry
  typed_round-RoundKept g header kind size w =
      if_ind (RoundKept input) (is_meta kind) _ _ (λ h. meta_round-RoundKept g kind size w)
        (λ h.
          if_ind (RoundKept input) (not (is_accepted kind)) _ _
            (λ k. reject-IsKept input _ g w.whole)
            (λ k. admit_sized-RoundKept g header kind (entry_size g size) w.whole))

  sized_round-RoundKept :
      (g : RestoreTarGuard) (header : List ℕ) (o : Option ℕ)
      → AtHeader input g
      → RoundKept input (sized_round utf8 g header o)
  sized_round-RoundKept g header none w = reject-IsKept input _ g w.whole
  sized_round-RoundKept g header (some size) w =
      typed_round-RoundKept g header (get_or header 156 0) size w

  header_round-RoundKept :
      (g : RestoreTarGuard) (header : List ℕ)
      → AtHeader input g
      → RoundKept input (header_round utf8 g header)
  unfolding header_round
  header_round-RoundKept g header w =
      if_ind (RoundKept input) (all (λ byte. byte == 0) header) _ _
        (λ h.
          if_ind (RoundKept input) (is_empty g.held) _ _
            (λ k.
              Whole-IsKept input (record g { ended = true }) w.whole (λ x. empty_held g k)
                (λ x. empty_held g k))
            (λ k. reject-IsKept input _ g w.whole))
        (λ h.
          if_ind (RoundKept input) (not (checksum_matches utf8 header)) _ _
            (λ k. reject-IsKept input _ g w.whole)
            (λ k. sized_round-RoundKept g header (read_number utf8 header 124 12) w))

  -- One round of the loop, while nothing was rejected.
  walk_round-RoundKept :
      (g : RestoreTarGuard)
      → IsKept input g
      → g.rejection ≡ none
      → RoundKept input (walk_round utf8 g)
  unfolding walk_round running_round pass_data push_consumed
  walk_round-RoundKept g h r =
      let w : Whole input g = h.clean r in
      if_ind (RoundKept input) g.ended _ _
        (λ e.
          Whole-IsKept input _ (push_consumed-Whole input (length g.buffered) g (h.quiet e) w)
            h.quiet h.in_data)
        (λ e.
          if_ind (RoundKept input) (ltb 0 g.data_remaining) _ _
            (λ d.
              let empty : g.held ≡ [] = h.in_data (ltb→lt 0 g.data_remaining d) in
              if_ind (RoundKept input) (is_empty g.buffered) _ _ (λ k. h)
                (λ k.
                  Whole-IsKept input _
                    (push_consumed-Whole input (smaller g.data_remaining (length g.buffered)) g
                      empty w)
                    h.quiet (λ x. empty)))
            (λ z.
              let at : AtHeader input g = record { whole = w; running = e; idle = z } in
              if_ind (RoundKept input) (ltb (length g.buffered) block_size) _ _ (λ k. h)
                (λ k. header_round-RoundKept g (take block_size g.buffered) at)))

  walk_on-IsKept :
      (next : RestoreTarGuard → RestoreTarGuard) (r : Round)
      → ((g : RestoreTarGuard) → IsKept input g → IsKept input (next g))
      → RoundKept input r
      → IsKept input (walk_on next r)
  walk_on-IsKept next (stop g) k h = h
  walk_on-IsKept next (more g) k h = k g h

  pub walk-IsKept :
      (fuel : ℕ) (g : RestoreTarGuard) → IsKept input g → IsKept input (walk utf8 fuel g)
  unfolding walk
  walk-IsKept zero g h = h
  walk-IsKept (suc fuel) g h =
      if_ind (IsKept input) (is_rejected g) _ _ (λ e. h)
        (λ e.
          walk_on-IsKept (walk utf8 fuel) (walk_round utf8 g) (walk-IsKept fuel)
            (walk_round-RoundKept g h (ground arith)))

snoc_Whole :
    (input chunk : List ℕ) (g : RestoreTarGuard)
    → Whole input g
    → Whole (input ++ chunk) (received chunk g)
snoc_Whole input chunk g w =
    let inner : (g.pushed ++ (concat g.held ++ g.buffered)) ++ chunk ≡ input ++ chunk =
      ap (λ xs. xs ++ chunk) w in
    rw
      (
        sym (append_assoc (concat g.held) g.buffered chunk),
        sym (append_assoc g.pushed (concat g.held ++ g.buffered) chunk),
      )
      inner

rejected-IsKept :
    (input chunk : List ℕ) (g : RestoreTarGuard)
    → is_rejected g ≡ true
    → IsKept input g
    → IsKept (input ++ chunk) g
rejected-IsKept input chunk g e h = record {
  lost = h.lost ++ chunk;
  start = sym (append_assoc g.pushed h.lost chunk) ∙ ap (λ xs. xs ++ chunk) h.start;
  clean = λ r. absurd (not_none g e r);
  quiet = h.quiet;
  in_data = h.in_data;
}

ended-IsKept :
    (input chunk : List ℕ) (g : RestoreTarGuard)
    → g.rejection ≡ none
    → g.ended ≡ true
    → IsSettled g
    → IsKept input g
    → IsKept (input ++ chunk) (record g { pushed = g.pushed ++ chunk })
ended-IsKept input chunk g r k settled h =
    let w : g.pushed ++ ([] ++ []) ≡ input = rw (h.quiet k, settled r k) at (h.clean r) in
    Whole-IsKept (input ++ chunk) (record g { pushed = g.pushed ++ chunk })
      (rw (h.quiet k, settled r k, append-nil) (ap (λ xs. xs ++ chunk) (rw append-nil at w)))
      h.quiet h.in_data

-- A chunk that comes after a rejection is dropped, one behind the archive's end goes through.
pub transform-IsKept :
    (utf8 : Decoder) (input chunk : List ℕ) (g : RestoreTarGuard)
    → IsSettled g
    → IsKept input g
    → IsKept (input ++ chunk) (transform utf8 chunk g)
unfolding transform
transform-IsKept utf8 input chunk g settled h =
    if_ind (IsKept (input ++ chunk)) (is_rejected g) _ _ (λ e. rejected-IsKept input chunk g e h)
      (λ e.
        if_ind (IsKept (input ++ chunk)) g.ended _ _
          (λ k. ended-IsKept input chunk g (ground arith) k settled h)
          (λ k.
            walk-IsKept utf8 (input ++ chunk) (length (g.buffered ++ chunk) + 2) (received chunk g)
              (Whole-IsKept (input ++ chunk) (received chunk g)
                (snoc_Whole input chunk g (h.clean (ground arith))) h.quiet h.in_data)))

new-IsKept : (root : Codes) → IsKept [] (new_guard root)
new-IsKept root = record {
  lost = [];
  start = refl;
  clean = λ e. refl;
  quiet = λ e. refl;
  in_data = λ e. refl;
}

feed-IsKept :
    (utf8 : Decoder) (chunks : List (List ℕ)) (input : List ℕ) (g : RestoreTarGuard)
    → IsSettled g
    → IsKept input g
    → IsKept (input ++ concat chunks) (feed utf8 chunks g) × IsSettled (feed utf8 chunks g)
feed-IsKept utf8 [] input g s h = (rw append-nil h, s)
feed-IsKept utf8 (chunk ∷ chunks) input g s h =
    rw (sym (append_assoc input chunk (concat chunks))) (
      feed-IsKept utf8 chunks (input ++ chunk) (transform utf8 chunk g)
        (transform-IsSettled utf8 chunk g s) (transform-IsKept utf8 input chunk g s h))

-- Without a rejection all of the input was pushed, and a start of it in any case.
abbrev pub Pushes : List ℕ → RestoreTarGuard → Type 0
Pushes input g =
    (g.rejection ≡ none → g.pushed ≡ input) × ((lost : List ℕ) × (g.pushed ++ lost ≡ input))

nothing_left :
    (input : List ℕ) (g : RestoreTarGuard)
    → g.held ≡ []
    → g.buffered ≡ []
    → Whole input g
    → g.pushed ≡ input
nothing_left input g empty drained w =
    let w' : g.pushed ++ ([] ++ []) ≡ input = rw (empty, drained) at w in rw append-nil at w'

flush-Pushes :
    (input : List ℕ) (g : RestoreTarGuard) → IsSettled g → IsKept input g → Pushes input (flush g)
unfolding flush
flush-Pushes input g s h =
    if_ind (Pushes input) (not (is_rejected g) && not g.ended && unfinished g) _ _
      (λ e. (λ r. cc, (h.lost, h.start)))
      (λ e. (
        λ r. elim (Bool-cases g.ended) [
          | inl k ↦ nothing_left input g (h.quiet k) (s r k) (h.clean r)
          | inr k ↦ nothing_left input g (ground arith) (ground arith) (h.clean r)
        ],
        (h.lost, h.start),
      ))

-- Every byte goes through, in order: an upload that is not rejected is pushed to Docker byte for byte,
-- however it is cut into chunks, and of one that is rejected a start is pushed.
pub restore-Pushes :
    (utf8 : Decoder) (root : Codes) (chunks : List (List ℕ))
    → Pushes (concat chunks) (restore utf8 root chunks)
unfolding restore
restore-Pushes utf8 root chunks =
    let fed = feed-IsKept utf8 chunks [] (new_guard root) (λ r e. refl) (new-IsKept root) in
    flush-Pushes (concat chunks) (feed utf8 chunks (new_guard root)) fed.1 fed.0
