-- ===== src/Document/Placement.antt =====
-- models.py: which placements `normalize_placement` accepts.
use httk_workflow.Base.{
  ◌≡◌, ◌≢◌, ◌≤◌, ◌↔◌, refl, true, false, List, [], ◌∷◌, any, all, arith, ◌==◌, inl, inr, Bool-cases,
}
use httk_workflow.Errors.{ok}
use httk_workflow.Json.Numbers.{codes}
use httk_workflow.Names.Text.{Text, text_eq, text_eq_refl, text_eq_sound, lacks}
use httk_workflow.Names.Path.{is_special}
use httk_workflow.Document.Size.{encoded_length}
use httk_workflow.Document.Paths.{is_unsafe, no_parts, normalize_placement}
use httk_workflow.Document.Below.{is_trivial}
use httk_workflow.Document.Joined.{
  path_text, is_part, is_long, Placed, normalize-Placed, normalize-path_text,
}

-- A part of a placement, as the file system and the protocol need it: a nonempty text without a
-- slash or a NUL, of 255 bytes at most, that has no meaning of its own.
pub record IsPart (part : Text) : Type 0 where
  pub not_empty : part ≢ []
  pub not_here : part ≢ codes "."
  pub not_up : part ≢ codes ".."
  pub not_control : part ≢ codes ".httk-workspace"
  pub no_slash : lacks 47 part ≡ true
  pub no_nul : lacks 0 part ≡ true
  pub fits_name : encoded_length part ≤ 255

abbrev pub AllParts : List Text → Type 0
AllParts [] = Unit {0}
AllParts (p ∷ ps) = IsPart p × AllParts ps

-- the placements of the protocol
abbrev pub IsPlacement : List Text → Type 0
IsPlacement ps = (ps ≢ []) × AllParts ps

differs : (s t : Text) → text_eq s t ≡ false → s ≢ t
differs s t h e = (let k = rw e at h in let r = text_eq_refl t in cc)

differs_test : (s t : Text) → s ≢ t → text_eq s t ≡ false
differs_test s t n = elim (Bool-cases (text_eq s t)) [
  | inl q ↦ absurd (n (text_eq_sound s t q))
  | inr q ↦ q
]

nul_lacks : (p : Text) → any (λ c. c == 0) p ≡ false → lacks 0 p ≡ true
nul_lacks [] h = refl
nul_lacks (c ∷ p) h = ground (arith, nul_lacks p)

lacks_nul : (p : Text) → lacks 0 p ≡ true → any (λ c. c == 0) p ≡ false
lacks_nul [] h = refl
lacks_nul (c ∷ p) h = ground (arith, lacks_nul p)

part_tests :
    (p : Text) → IsPart p → (is_part p ≡ true) × (is_unsafe p ≡ false) × (is_long p ≡ false)
unfolding is_part is_trivial is_unsafe is_special
part_tests p k =
    let e = differs_test p [] k.not_empty in
    let h = differs_test p (codes ".") k.not_here in
    let u = differs_test p (codes "..") k.not_up in
    let c = differs_test p (codes ".httk-workspace") k.not_control in
    let z = lacks_nul p k.no_nul in
    let l : is_long p ≡ false = (let f = k.fits_name in ground arith) in
    (rw (e, h, k.no_slash) refl, rw (e, h, u, c, z) refl, l)

tested-IsPart : (p : Text) → is_part p ≡ true → is_unsafe p ≡ false → is_long p ≡ false → IsPart p
unfolding is_part is_trivial is_unsafe is_special
tested-IsPart p a u l = record {
  not_empty = differs p [] (ground arith);
  not_here = differs p (codes ".") (ground arith);
  not_up = differs p (codes "..") (ground arith);
  not_control = differs p (codes ".httk-workspace") (ground arith);
  no_slash = ground arith;
  no_nul = nul_lacks p (ground arith);
  fits_name = ground arith;
}

all_tests :
    (ps : List Text)
    → AllParts ps
    → (all is_part ps ≡ true) × (any is_unsafe ps ≡ false) × (any is_long ps ≡ false)
all_tests [] k = (refl, refl, refl)
all_tests (p ∷ ps) (k, ks) =
    let (a, u, l) = part_tests p k in
    let (qs, us, ls) = all_tests ps ks in (rw (a, qs) refl, rw (u, us) refl, rw (l, ls) refl)

all_tested :
    (ps : List Text)
    → all is_part ps ≡ true
    → any is_unsafe ps ≡ false
    → any is_long ps ≡ false
    → AllParts ps
all_tested [] a u l = tt
all_tested (p ∷ ps) a u l = (
  tested-IsPart p (ground arith) (ground arith) (ground arith),
  all_tested ps (ground arith) (ground arith) (ground arith),
)

some_parts : (ps : List Text) → no_parts ps ≡ false → ps ≢ []
unfolding no_parts
some_parts [] h e = cc
some_parts (p ∷ ps) h e = cc

parts_some : (ps : List Text) → ps ≢ [] → no_parts ps ≡ false
unfolding no_parts
parts_some [] n = absurd (n refl)
parts_some (p ∷ ps) n = refl

Placed-IsPlacement : (ps : List Text) → Placed ps → IsPlacement ps
Placed-IsPlacement ps k =
    (some_parts ps k.some_part, all_tested ps k.are_parts k.none_unsafe k.none_long)

IsPlacement-Placed : (ps : List Text) → IsPlacement ps → Placed ps
IsPlacement-Placed ps (n, k) =
    let (a, u, l) = all_tests ps k in
    record { are_parts = a; some_part = parts_some ps n; none_unsafe = u; none_long = l }

-- A list of parts is what `normalize_placement` returns for some text exactly when it is not empty
-- and each part is a nonempty text without a slash or a NUL, of 255 bytes at most, that is none of
-- `.`, `..` and `.httk-workspace`. The text that joins the parts is then one such text.
pub normalize_placement_iff :
    (ps : List Text)
    → (((value : Text) × (normalize_placement value ≡ ok ps)) ↔ IsPlacement ps)
      × ((normalize_placement (path_text ps) ≡ ok ps) ↔ IsPlacement ps)
normalize_placement_iff ps =
    let sound : (value : Text) → normalize_placement value ≡ ok ps → IsPlacement ps =
      λ value e. Placed-IsPlacement ps ((normalize-Placed value).at e) in
    let complete : IsPlacement ps → normalize_placement (path_text ps) ≡ ok ps =
      λ k. normalize-path_text ps (IsPlacement-Placed ps k) in
    (
      (λ (value, e). sound value e, λ k. (path_text ps, complete k)),
      (sound (path_text ps), complete),
    )
