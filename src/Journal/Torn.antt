-- ===== src/Journal/Torn.antt =====
-- journal.py: a frame that is not all there ends the walk and takes nothing with it.
use httk_workflow.Base.{
  ◌∙◌, ℕ, zero, suc, ◌+◌, ◌<◌, ◌≤◌, ◌≡◌, refl, true, false, Bool-cases, inl, inr, some, List, [],
  ◌∷◌, ◌++◌, length, take, drop, arith, length-append, take-append-drop, ap, sym,
}
use mathlib.Core.List.{append-nil}
use httk_workflow.Names.Text.{Text, text_eq, text_eq_sound}
use httk_workflow.Journal.{
  Bytes, Codec, IsCodec, holds, segment_header, frame_bytes, pack, Cut, cut,
}
use httk_workflow.Journal.Writer.{JournalWriter}
use httk_workflow.Journal.Walk.{maximum_frame_bytes, torn, iter_segment_frames}
use httk_workflow.Journal.Cuts.{
  take-prefix, length-pack, unpack-pack, length-frame_bytes, length-take-le,
}
use httk_workflow.Journal.Grow.{IsWhole}
use httk_workflow.Journal.Log.{frames, Records}
use httk_workflow.Journal.Listing.{listing, Believed, walk-frames}

same_length : (s t : Text) → text_eq s t ≡ true → length s ≡ length t
same_length s t h = ap length (text_eq_sound s t h)

torn-IsWhole : (p : Cut) → torn p ≡ false → IsWhole p
unfolding torn
torn-IsWhole p h = ground (arith, same_length p.trailer p.length_bytes)

length-split {ℓ} :
    {A : Type ℓ} (n : ℕ) (b : List A) → length (take n b) + length (drop n b) ≡ length b
length-split n b = sym (length-append (take n b) (drop n b)) ∙ ap length (take-append-drop n b)

IsWhole-length : (b : Bytes) → IsWhole (cut b) → 48 + (cut b).len ≤ length b
unfolding cut
IsWhole-length b w =
    let n = (cut b).len in
    let b1 = drop 8 b in
    let b2 = drop n b1 in
    let b3 = drop 32 b2 in
    omega (
      arith,
      w.lengths,
      w.payloads,
      w.checksums,
      w.trailers,
      length-split 8 b,
      length-split n b1,
      length-split 32 b2,
      length-take-le 8 b3,
    )

take-take {ℓ} : {A : Type ℓ} (n k : ℕ) (b : List A) → n ≤ k → take n (take k b) ≡ take n b
take-take zero k b h = refl
take-take (suc n) zero b h = absurd (omega arith)
take-take (suc n) (suc k) [] h = refl
take-take (suc n) (suc k) (x ∷ b) h = ap (λ (t : List _). x ∷ t) (take-take n k b (omega arith))

length-take-bound {ℓ} : {A : Type ℓ} (k : ℕ) (b : List A) → length (take k b) ≤ k
length-take-bound zero b = omega arith
length-take-bound (suc k) [] = omega arith
length-take-bound (suc k) (x ∷ b) = omega (arith, length-take-bound k b)

module _ (c : Codec) (k : IsCodec c) where
  len-take :
      (p : Bytes) (n : ℕ)
      → 8 ≤ n
      → length p ≤ maximum_frame_bytes
      → (cut (take n (frame_bytes c p))).len ≡ length p
  unfolding cut frame_bytes
  len-take p n enough small = rw (take-take 8 n (frame_bytes c p) enough) (
      rw (take-prefix 8 (pack (length p)) _ (length-pack (length p)))
        (unpack-pack (length p) (omega arith)))

  -- A frame of which some bytes are missing at the end is torn.
  pub torn-take :
      (p : Bytes) (n : ℕ)
      → length p ≤ maximum_frame_bytes
      → n < length (frame_bytes c p)
      → torn (cut (take n (frame_bytes c p))) ≡ true
  torn-take p n small short = elim (Bool-cases (torn (cut (take n (frame_bytes c p))))) [
    | inl t ↦ t
    | inr f ↦
        let b = take n (frame_bytes c p) in
        let w = torn-IsWhole (cut b) f in
        let enough : 8 ≤ n =
          omega (arith, IsWhole-length b w, length-take-bound n (frame_bytes c p)) in
        let its_length : (cut b).len ≡ length p = len-take p n enough small in
        absurd (
          omega (
            arith,
            IsWhole-length b w,
            its_length,
            length-take-bound n (frame_bytes c p),
            length-frame_bytes c k p,
          ))
  ]

  -- A segment that holds the frames of some payloads, none larger than the walk accepts, and behind
  -- them a part of one more frame, or nothing, is walked to the end of those payloads: each whose JSON
  -- is an object is reported with its reference, its offset and its members, in order, and the part
  -- is passed over.
  pub iter_segment_frames-frames :
      (writer_id : Text) (segment : ℕ) (ps : List Bytes) (p : Bytes) (n : ℕ)
      → Believed ps
      → length p ≤ maximum_frame_bytes
      → n < length (frame_bytes c p)
      → iter_segment_frames c
          (holds (segment_header ++ (frames c ps ++ take n (frame_bytes c p))))
          writer_id
          segment
        ≡ some (listing c writer_id segment 12 ps)
  unfolding iter_segment_frames
  iter_segment_frames-frames writer_id segment ps p n b small short =
      walk-frames c k writer_id segment ps (take n (frame_bytes c p))
        (suc (length (segment_header ++ (frames c ps ++ take n (frame_bytes c p))))) 12 b
        (torn-take p n small short) (omega arith)

  pub iter-Records :
      (j : JournalWriter) (ps : List Bytes)
      → Records c j ps
      → Believed ps
      → iter_segment_frames c (j.disk j.writer_id j.segment_number) j.writer_id j.segment_number
        ≡ some (listing c j.writer_id j.segment_number 12 ps)
  iter-Records j ps h b = rw h.held (
      rw append-nil at (
        iter_segment_frames-frames j.writer_id j.segment_number ps [] 0 b (omega arith)
          (omega (arith, length-frame_bytes c k []))))
