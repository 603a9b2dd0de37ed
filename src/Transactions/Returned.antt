-- ===== src/Transactions/Returned.antt =====
-- transactions.py: an operation that returns has been applied.
use httk_workflow.Base.{
  ◌≡◌, refl, ap, sym, ◌∙◌, Bool, true, false, not, ◌&&◌, ◌||◌, Option, [], ◌∷◌, arith,
  if◌then◌else◌,
}
use httk_workflow.Errors.{Raised, Result, ok, err}
use httk_workflow.Names.Text.{Text}
use httk_workflow.Stateful.{Stateful, and_then, ◌>>=◌, check}
use httk_workflow.Transactions.{Place, Tree, Kernel, Disk, exists, is_file, is_dir, digest_matches}
use httk_workflow.Transactions.Rename.{rename_verified}
use httk_workflow.Transactions.Places.{digest_matches-same}
use httk_workflow.Transactions.Operation.{
  Operation, make_dir, put_file, put_tree, remove_path, replace_tree,
}
use httk_workflow.Transactions.Replay.{
  mkdir_or_raise, look, install_steps, installed, put_file_steps, put_tree_steps, remove_steps,
  set_aside, replace_tree_steps, applied, steps, apply,
}
use httk_workflow.Transactions.Untouched.{Apart, rename_verified-Arrived}
use httk_workflow.Transactions.Keeps.{spots, apart_within}

-- What the parts of a block did that returned.
module _ {A B : Type 0} where
  pub >>=-eq-returned :
      (m : Stateful Disk A) (f : A → Stateful Disk B) (d d' : Disk) {b : B}
      → (m >>= f) d ≡ (ok b, d')
      → (a : A) × (v : Disk) × (m d ≡ (ok a, v)) × (f a v ≡ (ok b, d'))
  unfolding ◌>>=◌
  >>=-eq-returned m f d d' {b} h = found (m d) refl h
    where
      found :
          (r : Result A × Disk)
          → m d ≡ r
          → and_then r f ≡ (ok b, d')
          → (a : A) × (v : Disk) × (m d ≡ (ok a, v)) × (f a v ≡ (ok b, d'))
      found (ok a, v) e g = (a, v, e, g)
      found (err x, v) e g = cc

pub looked-returned :
    {B : Type 0} (f : Tree → Stateful Disk B) (d : Disk) → (look >>= f) d ≡ f d.tree d
unfolding look ◌>>=◌
looked-returned f d = refl

pub checked-returned :
    {B : Type 0} (b : Bool) (x : Raised) (f : Unit {0} → Stateful Disk B) (d d' : Disk) {a : B}
    → (check b x >>= f) d ≡ (ok a, d')
    → (b ≡ true) × (f tt d ≡ (ok a, d'))
unfolding check ◌>>=◌
checked-returned true x f d d' h = (refl, h)
checked-returned false x f d d' h = cc

pub check-returned :
    (b : Bool) (x : Raised) (d d' : Disk) → check b x d ≡ (ok tt, d') → (b ≡ true) × (d ≡ d')
unfolding check
check-returned true x d d' h = (refl, ap (λ (r : Result (Unit {0}) × Disk). r.1) h)
check-returned false x d d' h = cc

module _ (k : Kernel) where
  -- a rename that returns, where the destination is to have a digest
  install-applied :
      (a b : Place) (x : Option Text) (d d' : Disk)
      → Apart a b
      → exists d.tree b ≡ true
      → digest_matches k d.tree b x ≡ true
      → rename_verified k b a d ≡ (ok tt, d')
      → installed k d'.tree a b x ≡ true
  unfolding installed
  install-applied a b x d d' h e m r =
      let arrived = rename_verified-Arrived k b a h d d' e r in
      rw (arrived.here, digest_matches-same d.tree d'.tree b a arrived.same k x, m, arrived.gone)
        refl

  is_file-exists : (t : Tree) (p : Place) → is_file t p ≡ true → exists t p ≡ true
  unfolding is_file exists
  is_file-exists t p h = ground arith

  is_dir-exists : (t : Tree) (p : Place) → is_dir t p ≡ true → exists t p ≡ true
  unfolding is_dir exists
  is_dir-exists t p h = ground arith

  install_steps-applied :
      (a b : Place) (x : Option Text) (d d' : Disk)
      → Apart a b
      → install_steps k a b x d ≡ (ok tt, d')
      → installed k d'.tree a b x ≡ true
  unfolding install_steps
  install_steps-applied a b x d d' h e =
      let (fine, moved) = checked-returned _ _ _ d d' (sym (looked-returned _ d) ∙ e) in
      install-applied a b x d d' h (is_dir-exists d.tree b (ground arith)) (ground arith) moved

  put_file_steps-applied :
      (a b : Place) (x : Option Text) (d d' : Disk)
      → Apart a b
      → put_file_steps k a b x d ≡ (ok tt, d')
      → installed k d'.tree a b x ≡ true
  unfolding put_file_steps installed
  put_file_steps-applied a b x d d' h e =
      let (fine, rest) = checked-returned _ _ _ d d' (sym (looked-returned _ d) ∙ e) in
      let (u, v, moved, last) = >>=-eq-returned (rename_verified k b a) _ d d' rest in
      let (same, is_v) = check-returned _ _ v d' (sym (looked-returned _ v) ∙ last) in
      let arrived =
        rename_verified-Arrived k b a h d v (is_file-exists d.tree b (ground arith)) moved in
      rw (← is_v) (rw (arrived.here, same, arrived.gone) refl)

  put_tree_steps-applied :
      (a b : Place) (x : Option Text) (d d' : Disk)
      → Apart a b
      → put_tree_steps k a b x d ≡ (ok tt, d')
      → installed k d'.tree a b x ≡ true
  unfolding put_tree_steps
  put_tree_steps-applied a b x d d' h e =
      let (free, rest) = checked-returned _ _ _ d d' (sym (looked-returned _ d) ∙ e) in
      let (fine, moved) = checked-returned _ _ _ d d' rest in
      install-applied a b x d d' h (is_dir-exists d.tree b (ground arith)) (ground arith) moved

  remove_steps-applied :
      (a b : Place) (m : Bool) (d d' : Disk)
      → Apart b a
      → remove_steps k a b d ≡ (ok tt, d')
      → not (exists d'.tree a) && (exists d'.tree b || m) ≡ true
  unfolding remove_steps
  remove_steps-applied a b m d d' h e =
      let (there, moved) = checked-returned _ _ _ d d' (sym (looked-returned _ d) ∙ e) in
      let arrived = rename_verified-Arrived k a b h d d' there moved in
      rw (arrived.here, arrived.gone) refl

  two-Apart : (a b : Place) → apart_within (a ∷ b ∷ []) ≡ true → Apart a b × Apart b a
  unfolding apart_within
  two-Apart a b h = (ground arith, ground arith)

  steps-applied :
      (o : Operation) (d d' : Disk)
      → apart_within (spots o) ≡ true
      → steps k o d ≡ (ok tt, d')
      → applied k o d'.tree ≡ true
  unfolding steps applied spots apart_within ◌>>=◌ replace_tree_steps
  steps-applied (make_dir q) d d' h e =
      let (u, v, m, f) = >>=-eq-returned (mkdir_or_raise q) _ d d' e in
      let (fine, same) = check-returned _ _ v d' (sym (looked-returned _ v) ∙ f) in rw (← same) fine
  steps-applied (put_file a b x) d d' h e = put_file_steps-applied a b x d d' (two-Apart a b h).0 e
  steps-applied (put_tree a b x) d d' h e = put_tree_steps-applied a b x d d' (two-Apart a b h).0 e
  steps-applied (remove_path a b m) d d' h e = remove_steps-applied a b m d d' (two-Apart a b h).1 e
  steps-applied (replace_tree a b t x) d d' h e =
      let (u, v, m, f) = >>=-eq-returned (set_aside k a t) _ d d' e in
      install_steps-applied a b x v d' (ground arith) f

  -- An operation that returns has been applied, if its places stand apart.
  pub apply-applied :
      (o : Operation) (d d' : Disk)
      → apart_within (spots o) ≡ true
      → apply k o d ≡ (ok tt, d')
      → applied k o d'.tree ≡ true
  unfolding apply
  apply-applied o d d' h e = split (applied k o d.tree) refl e
    where
      split :
          (c : Bool)
          → applied k o d.tree ≡ c
          → (if c then (ok tt, d) else steps k o d) ≡ (ok tt, d')
          → applied k o d'.tree ≡ true
      split true c e = rw (← ap (λ (r : Result (Unit {0}) × Disk). r.1) e) c
      split false c e = steps-applied o d d' h e
