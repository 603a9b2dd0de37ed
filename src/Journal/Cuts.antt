-- ===== src/Journal/Cuts.antt =====
-- journal.py: what the readers cut from the bytes that an append has written, and from a file that
-- has grown since.
use httk_workflow.Base.{
  ℕ, zero, suc, ◌+◌, ◌^◌, ◌≤◌, ◌<◌, ◌≡◌, refl, ap, List, [], ◌∷◌, ◌++◌, length, take, drop, arith,
  take-append, drop-append, length-append,
}
use mathlib.Core.List.{append_assoc}
use httk_workflow.Journal.{Bytes, Codec, IsCodec, pack, unpack, frame_digest, frame_bytes, cut}

pub length-pack : (n : ℕ) → length (pack n) ≡ 8
unfolding pack
length-pack n = refl

pub unpack-pack : (n : ℕ) → n < 2 ^ 64 → unpack (pack n) ≡ n
unfolding unpack pack
unpack-pack n h = omega arith

module _ {ℓ} {A : Type ℓ} where
  pub take-grown : (n : ℕ) (b more : List A) → length (take n b) ≡ n → take n (b ++ more) ≡ take n b
  take-grown zero b more h = refl
  take-grown (suc n) [] more h = absurd (omega arith)
  take-grown (suc n) (x ∷ b) more h = ap (λ (t : List A). x ∷ t) (take-grown n b more (omega arith))

  pub drop-grown : (n : ℕ) (b more : List A) → n ≤ length b → drop n (b ++ more) ≡ drop n b ++ more
  drop-grown zero b more h = refl
  drop-grown (suc n) [] more h = absurd (omega arith)
  drop-grown (suc n) (x ∷ b) more h = drop-grown n b more (omega arith)

  pub length-drop-le : (n : ℕ) (b : List A) → 0 < length (drop n b) → n ≤ length b
  length-drop-le zero b h = omega arith
  length-drop-le (suc n) [] h = absurd (omega arith)
  length-drop-le (suc n) (x ∷ b) h = omega (arith, length-drop-le n b)

  pub length-take-le : (n : ℕ) (b : List A) → length (take n b) ≤ length b
  length-take-le zero b = omega arith
  length-take-le (suc n) [] = omega arith
  length-take-le (suc n) (x ∷ b) = omega (arith, length-take-le n b)

  pub length-drop : (n : ℕ) (b : List A) → length (drop n b) ≤ length b
  length-drop zero b = omega arith
  length-drop (suc n) [] = omega arith
  length-drop (suc n) (x ∷ b) = omega (arith, length-drop n b)

  pub take-prefix : (n : ℕ) (xs ys : List A) → length xs ≡ n → take n (xs ++ ys) ≡ xs
  take-prefix n xs ys e = rw e at (take-append xs ys)

  pub drop-prefix : (n : ℕ) (xs ys : List A) → length xs ≡ n → drop n (xs ++ ys) ≡ ys
  drop-prefix n xs ys e = rw e at (drop-append xs ys)

-- The reads take apart what stands together.
pub cut-parts :
    (l p d t rest : Bytes)
    → length l ≡ 8
    → unpack l ≡ length p
    → length d ≡ 32
    → length t ≡ 8
    → cut (l ++ (p ++ (d ++ (t ++ rest)))) ≡ record {
      length_bytes = l;
      len = length p;
      payload = p;
      checksum = d;
      trailer = t;
      rest = rest;
    }
unfolding cut
cut-parts l p d t rest hl u hd ht =
    let e0 = take-prefix 8 l (p ++ (d ++ (t ++ rest))) hl in
    let d0 = drop-prefix 8 l (p ++ (d ++ (t ++ rest))) hl in
    let e1 = take-prefix (length p) p (d ++ (t ++ rest)) refl in
    let d1 = drop-prefix (length p) p (d ++ (t ++ rest)) refl in
    let e2 = take-prefix 32 d (t ++ rest) hd in
    let d2 = drop-prefix 32 d (t ++ rest) hd in
    let e3 = take-prefix 8 t rest ht in
    let d3 = drop-prefix 8 t rest ht in simp (e0, d0, u, e1, d1, e2, d2, e3, d3)

module _ (c : Codec) (k : IsCodec c) where
  pub length-frame_digest : (payload : Bytes) → length (frame_digest c payload) ≡ 32
  unfolding frame_digest
  length-frame_digest payload = k.digest_length (pack (length payload) ++ payload)

  -- the cut at the front of a frame
  pub cut-frame :
      (payload rest : Bytes)
      → length payload < 2 ^ 64
      → cut (frame_bytes c payload ++ rest) ≡ record {
        length_bytes = pack (length payload);
        len = length payload;
        payload = payload;
        checksum = frame_digest c payload;
        trailer = pack (length payload);
        rest = rest;
      }
  unfolding frame_bytes
  cut-frame payload rest h = simp append_assoc (
      cut-parts (pack (length payload)) payload (frame_digest c payload) (pack (length payload))
        rest (length-pack (length payload)) (unpack-pack (length payload) h)
        (length-frame_digest payload) (length-pack (length payload)))

  pub length-frame_bytes : (payload : Bytes) → length (frame_bytes c payload) ≡ 48 + length payload
  unfolding frame_bytes
  length-frame_bytes payload =
      let l = pack (length payload) in
      let d = frame_digest c payload in
      omega (
        arith,
        length-append l (payload ++ (d ++ l)),
        length-append payload (d ++ l),
        length-append d l,
        length-pack (length payload),
        length-frame_digest payload,
      )
