-- ===== src/Broker/Demux/Chunks.antt =====
-- The frames do not depend on where the transport cuts the stream (stream-demux.ts).
use docker_webmail_gui.Broker.Demux.{
  DemuxedFrame, next_frame, cons_frame, drain, DockerStreamDemuxer, push, feed, frame_size, joined,
}
use docker_webmail_gui.Common.{
  ℕ, zero, suc, ◌+◌, ◌≤◌, ◌<◌, ◌≡◌, refl, sym, ap, inl, inr, none, some, List, [], ◌∷◌, ◌++◌,
  append-nil, append_assoc, arith, Option-cases, length, concat, length-append, length-drop,
  take-append, drop-append, get_or-append,
}

frame_size-append : (b c : List ℕ) → 8 ≤ length b → frame_size (b ++ c) ≡ frame_size b
unfolding frame_size
frame_size-append b c h = rw (
  get_or-append 4 b c 0 (omega arith),
  get_or-append 5 b c 0 (omega arith),
  get_or-append 6 b c 0 (omega arith),
  get_or-append 7 b c 0 (omega arith),
)

pub next_frame-append :
    (b c : List ℕ) (frame : DemuxedFrame) (rest : List ℕ)
    → next_frame b ≡ some (frame, rest)
    → next_frame (b ++ c) ≡ some (frame, rest ++ c)
unfolding next_frame
next_frame-append b c frame rest h = ground (
  arith,
  frame_size-append b c,
  get_or-append 0 b c 0,
  take-append (8 + frame_size b) b c,
  drop-append (8 + frame_size b) b c,
  length-append b c,
)

pub next_frame-shorter :
    (b : List ℕ) (frame : DemuxedFrame) (rest : List ℕ)
    → next_frame b ≡ some (frame, rest)
    → length rest < length b
unfolding next_frame
next_frame-shorter b frame rest h = ground (arith, length-drop (8 + frame_size b) b)

pub next_frame-nil : next_frame [] ≡ none
unfolding next_frame
next_frame-nil = refl

pub drain_fuel : (f g : ℕ) (b : List ℕ) → length b ≤ f → length b ≤ g → drain f b ≡ drain g b
unfolding drain
drain_fuel zero zero b h k = refl
drain_fuel zero (suc g) [] h k = rw (next_frame-nil, drain)
drain_fuel zero (suc g) (x ∷ b) h k = absurd (omega arith)
drain_fuel (suc f) zero [] h k = rw (next_frame-nil, drain)
drain_fuel (suc f) zero (x ∷ b) h k = absurd (omega arith)
drain_fuel (suc f) (suc g) b h k = elim (Option-cases (next_frame b)) [
  | inl e ↦ rw (e, drain)
  | inr ((frame, rest), e) ↦
      rw (e, drain)
        (ap (cons_frame frame) (
          drain_fuel f g rest (omega (arith, next_frame-shorter b frame rest e))
            (omega (arith, next_frame-shorter b frame rest e))))
]

pub drain-stop : (f : ℕ) (b : List ℕ) → next_frame b ≡ none → drain f b ≡ ([], b)
unfolding drain
drain-stop zero b e = refl
drain-stop (suc f) b e = rw (e, drain)

pub drain-step :
    (f : ℕ) (b : List ℕ) (frame : DemuxedFrame) (rest : List ℕ)
    → next_frame b ≡ some (frame, rest)
    → drain (suc f) b ≡ cons_frame frame (drain f rest)
unfolding drain
drain-step f b frame rest e = rw (e, drain)

abbrev then_drain : ℕ → List ℕ → List DemuxedFrame × List ℕ → List DemuxedFrame × List ℕ
then_drain k c (frames, rest) = let (later, left) = drain k (rest ++ c) in (frames ++ later, left)

-- To drain a longer buffer is to drain the first part, and then what is left with the rest.
pub drain-append :
    (f g k : ℕ) (b c : List ℕ)
    → length b ≤ f
    → length (b ++ c) ≤ g
    → length (b ++ c) ≤ k
    → drain g (b ++ c) ≡ then_drain k c (drain f b)
drain-append zero g k [] c hf hg hk =
    rw (drain-stop zero [] next_frame-nil) (drain_fuel g k c hg hk)
drain-append zero g k (x ∷ b) c hf hg hk = absurd (omega arith)
drain-append (suc f) zero k [] c hf hg hk =
    rw (drain-stop (suc f) [] next_frame-nil) (drain_fuel zero k c hg hk)
drain-append (suc f) zero k (x ∷ b) c hf hg hk = absurd (omega arith)
drain-append (suc f) (suc g) k b c hf hg hk = elim (Option-cases (next_frame b)) [
  | inl e ↦ rw (drain-stop (suc f) b e) (drain_fuel (suc g) k (b ++ c) hg hk)
  | inr ((frame, rest), e) ↦
      let shorter : length rest < length b = next_frame-shorter b frame rest e in
      let fits : length (rest ++ c) < length (b ++ c) =
        omega (arith, length-append rest c, length-append b c) in
      rw
        (
          drain-step f b frame rest e,
          drain-step g (b ++ c) frame (rest ++ c) (next_frame-append b c frame rest e),
        )
        (ap (cons_frame frame)
          (drain-append f g k rest c (omega arith) (omega arith) (omega arith)))
]

joined-append : (b c : List ℕ) → joined b c ≡ b ++ c
joined-append [] c = refl
joined-append (x ∷ b) c = ground arith

pub push-drain :
    (d : DockerStreamDemuxer) (chunk : List ℕ) (f : ℕ)
    → length (d.buffer ++ chunk) ≤ f
    → push d chunk
      ≡ ((drain f (d.buffer ++ chunk)).0, record { buffer = (drain f (d.buffer ++ chunk)).1 })
unfolding push
push-drain d chunk f h = rw (
  joined-append d.buffer chunk,
  drain_fuel (length (d.buffer ++ chunk)) f (d.buffer ++ chunk) (omega arith) h,
)

drain-shorter : (f : ℕ) (b : List ℕ) → length (drain f b).1 ≤ length b
unfolding drain
drain-shorter zero b = omega arith
drain-shorter (suc f) b = elim (Option-cases (next_frame b)) [
  | inl e ↦ rw (e, drain) (omega arith)
  | inr ((frame, rest), e) ↦
      rw (e, drain) (omega (arith, next_frame-shorter b frame rest e, drain-shorter f rest))
]

-- What is left in the buffer does not hold a whole frame.
pub drain-IsDrained : (f : ℕ) (b : List ℕ) → length b ≤ f → next_frame (drain f b).1 ≡ none
unfolding drain
drain-IsDrained zero [] h = next_frame-nil
drain-IsDrained zero (x ∷ b) h = absurd (omega arith)
drain-IsDrained (suc f) b h = elim (Option-cases (next_frame b)) [
  | inl e ↦ rw (e, drain) e
  | inr ((frame, rest), e) ↦
      rw (e, drain) (drain-IsDrained f rest (omega (arith, next_frame-shorter b frame rest e)))
]

abbrev pub IsDrained : DockerStreamDemuxer → Type 0
IsDrained d = next_frame d.buffer ≡ none

pub push-IsDrained : (d : DockerStreamDemuxer) (chunk : List ℕ) → IsDrained (push d chunk).1
push-IsDrained d chunk =
    rw (push-drain d chunk (length (d.buffer ++ chunk)) (omega arith))
      (drain-IsDrained (length (d.buffer ++ chunk)) (d.buffer ++ chunk) (omega arith))

-- Two chunks one after the other give the frames of both together, in order, and leave the
-- demuxer with the same bytes in its buffer.
pub push-push :
    (d : DockerStreamDemuxer) (a b : List ℕ)
    → ((push d a).0 ++ (push (push d a).1 b).0, (push (push d a).1 b).1) ≡ push d (a ++ b)
push-push d a b =
    let k : ℕ = length ((d.buffer ++ a) ++ b) in
    let fits : length (d.buffer ++ a) ≤ k = omega (arith, length-append (d.buffer ++ a) b) in
    let left : List ℕ = (drain k (d.buffer ++ a)).1 in
    let still : length (left ++ b) ≤ k = omega (
      arith,
      drain-shorter k (d.buffer ++ a),
      length-append left b,
      length-append (d.buffer ++ a) b,
    ) in
    let both : length (d.buffer ++ (a ++ b)) ≤ k =
      omega (arith, ap length (append_assoc d.buffer a b)) in
    rw (
      push-drain d a k fits,
      push-drain (record { buffer = left }) b k still,
      push-drain d (a ++ b) k both,
      ← append_assoc,
      drain-append k k k (d.buffer ++ a) b fits (omega arith) (omega arith),
    )

push-nil : (d : DockerStreamDemuxer) → IsDrained d → push d [] ≡ ([], d)
push-nil d h =
    let fits : length (d.buffer ++ []) ≤ length d.buffer =
      omega (arith, ap length (append-nil d.buffer)) in
    rw (push-drain d [] (length d.buffer) fits, append-nil, drain-stop (length d.buffer) d.buffer h)

-- However the transport cuts a stream, the demuxer gives the frames of the uncut stream.
pub feed-concat :
    (d : DockerStreamDemuxer) (chunks : List (List ℕ))
    → IsDrained d
    → feed d chunks ≡ push d (concat chunks)
unfolding feed
feed-concat d [] h = sym (push-nil d h)
feed-concat d (chunk ∷ chunks) h =
    rw (feed-concat (push d chunk).1 chunks (push-IsDrained d chunk))
      (push-push d chunk (concat chunks))
