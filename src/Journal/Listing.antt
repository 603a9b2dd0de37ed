-- ===== src/Journal/Listing.antt =====
-- journal.py: the walk over a segment finds the frames that were appended to it, in their order,
-- and stops at a torn one.
use httk_workflow.Base.{
  zero, ap, ℕ, suc, ◌+◌, ◌<◌, ◌≤◌, ◌≡◌, refl, ==_iff, true, false, Option, none, some, List, [],
  ◌∷◌, ◌++◌, length, arith, length-append, ltb,
}
use mathlib.Core.Path.{subst}
use mathlib.Core.List.{append_assoc}
use httk_workflow.Json.{obj, Members}
use httk_workflow.Names.Text.{Text, text_eq_refl}
use httk_workflow.Names.RecordRef.{encode_record_ref}
use httk_workflow.Journal.{Bytes, Codec, IsCodec, frame_bytes, frame_digest, pack, Cut, cut}
use httk_workflow.Journal.Walk.{
  JournalFrame, maximum_frame_bytes, torn, intact, yielded, with_later, walk,
}
use httk_workflow.Journal.Cuts.{length-pack, length-frame_digest, cut-frame, length-frame_bytes}
use httk_workflow.Journal.Log.{frames}

-- what the JSON of a payload gives to the walk
unfoldable pub record_of : Codec → Bytes → Option Members
record_of c p = elim (c.json_loads p) [ some (obj m) ↦ some m | _ ↦ none ]

-- The frames of these payloads as the walk should report them, the first at this offset.
unfoldable pub listing : Codec → Text → ℕ → ℕ → List Bytes → List JournalFrame
listing c writer_id segment offset [] = []
listing c writer_id segment offset (p ∷ ps) =
    let later = listing c writer_id segment (offset + (48 + length p)) ps in
    elim (record_of c p) [
      | none ↦ later
      | some m ↦
          record {
            record_ref = encode_record_ref writer_id segment offset (length p) (frame_digest c p);
            writer_id = writer_id;
            segment = segment;
            offset = offset;
            frame = m;
          }
          ∷ later
    ]

-- no payload is larger than the walk believes
abbrev pub Believed : List Bytes → Type 0
Believed [] = Unit {0}
Believed (p ∷ ps) = (length p ≤ maximum_frame_bytes) × Believed ps

module _ (c : Codec) (k : IsCodec c) where
  abbrev whole : Bytes → Bytes → Cut
  whole p rest = record {
    length_bytes = pack (length p);
    len = length p;
    payload = p;
    checksum = frame_digest c p;
    trailer = pack (length p);
    rest = rest;
  }

  torn-frame : (p rest : Bytes) → length p ≤ maximum_frame_bytes → torn (whole p rest) ≡ false
  unfolding torn
  torn-frame p rest h =
      let small : ltb maximum_frame_bytes (length p) ≡ false = ground arith in
      simp (
        length-pack (length p),
        (==_iff (length p) (length p)).1 refl,
        length-frame_digest c k p,
        text_eq_refl,
        small,
      )

  intact-frame : (p rest : Bytes) → intact c (whole p rest) ≡ record_of c p
  unfolding intact record_of frame_digest
  intact-frame p rest = simp (text_eq_refl)

  walk-whole :
      (writer_id : Text) (segment fuel offset : ℕ) (b : Bytes)
      → torn (cut b) ≡ false
      → walk c writer_id segment (suc fuel) offset b
        ≡ with_later
            (yielded writer_id segment offset (cut b) (intact c (cut b)))
            (walk c writer_id segment fuel (offset + (48 + (cut b).len)) (cut b).rest)
  unfolding walk
  walk-whole writer_id segment fuel offset b t = rw t refl

  walk-step :
      (writer_id : Text) (segment fuel offset : ℕ) (b : Bytes) (q : Cut)
      → cut b ≡ q
      → torn q ≡ false
      → walk c writer_id segment (suc fuel) offset b
        ≡ with_later
            (yielded writer_id segment offset q (intact c q))
            (walk c writer_id segment fuel (offset + (48 + q.len)) q.rest)
  walk-step writer_id segment fuel offset b q e =
      subst
        (λ (q : Cut).
          torn q ≡ false
          → walk c writer_id segment (suc fuel) offset b
            ≡ with_later (yielded writer_id segment offset q (intact c q))
                (walk c writer_id segment fuel (offset + (48 + q.len)) q.rest))
        e (walk-whole writer_id segment fuel offset b)

  walk-torn :
      (writer_id : Text) (segment fuel offset : ℕ) (b : Bytes)
      → torn (cut b) ≡ true
      → walk c writer_id segment (suc fuel) offset b ≡ some []
  unfolding walk
  walk-torn writer_id segment fuel offset b t = rw t refl

  yielded-listing :
      (writer_id : Text) (segment offset : ℕ) (p rest : Bytes) (ps : List Bytes)
      → yielded writer_id segment offset
          (whole p rest)
          (record_of c p)
          (listing c writer_id segment (offset + (48 + length p)) ps)
        ≡ listing c writer_id segment offset (p ∷ ps)
  unfolding yielded listing
  yielded-listing writer_id segment offset p rest ps = ground arith

  pub walk-frames :
      (writer_id : Text) (segment : ℕ) (ps : List Bytes) (tail : Bytes) (fuel offset : ℕ)
      → Believed ps
      → torn (cut tail) ≡ true
      → length (frames c ps ++ tail) < fuel
      → walk c writer_id segment fuel offset (frames c ps ++ tail)
        ≡ some (listing c writer_id segment offset ps)
  unfolding frames listing
  walk-frames writer_id segment ps tail zero offset b t f = absurd (omega arith)
  walk-frames writer_id segment [] tail (suc fuel) offset b t f =
      walk-torn writer_id segment fuel offset tail t
  walk-frames writer_id segment (p ∷ ps) tail (suc fuel) offset b t f =
      let rest = frames c ps ++ tail in
      let less : length rest < fuel = omega (
        arith,
        length-append (frame_bytes c p ++ frames c ps) tail,
        length-append (frame_bytes c p) (frames c ps),
        length-append (frames c ps) tail,
        length-frame_bytes c k p,
      ) in
      let step =
        walk-step writer_id segment fuel offset (frame_bytes c p ++ rest) (whole p rest)
          (cut-frame c k p rest (omega arith)) (torn-frame p rest b.0) in
      let later =
        walk-frames writer_id segment ps tail fuel (offset + (48 + length p)) b.1 t less in
      rw append_assoc (
        rw (step, later, intact-frame p rest)
          (ap some (yielded-listing writer_id segment offset p rest ps)))
