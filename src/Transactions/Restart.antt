-- ===== src/Transactions/Restart.antt =====
-- transactions.py: replay_transaction on a disk that an earlier replay of the same manifest left.
use httk_workflow.Base.{
  ℤ, ◌≡◌, refl, ap, sym, ◌∙◌, Bool, true, Bool-cases, inl, inr, Option, none, some, List, [], ◌∷◌,
  ◌++◌, arith, if◌then◌else◌,
}
use httk_workflow.Errors
use httk_workflow.Errors.{Raised, Result, ok, err, require, format_error}
use httk_workflow.Json.{Json, Members, as_mapping}
use httk_workflow.Stateful.{and_then, ◌>>=◌, ◌>>◌, of, check}
use httk_workflow.Transactions.{Place, Tree, Kernel, Disk, is_dir}
use httk_workflow.Transactions.Rename.{mkdir, with_directories}
use httk_workflow.Transactions.Manifest.{accepted}
use httk_workflow.Transactions.Operation.{Operation, make_dir, data_dir, operation_of}
use httk_workflow.Transactions.Places.{within_refl}
use httk_workflow.Transactions.Replay.{
  mkdir_or_raise, put_back, look, applied, steps, apply, replay_one, replay_all, nonempty,
  replay_transaction,
}
use httk_workflow.Transactions.Resume.{apply_all, separated, apply_all-again}

abbrev both : Result Operation → Result (List Operation) → Result (List Operation)
both (ok o) (ok os) = ok (o ∷ os)
both (ok o) (err e) = err e
both (err e) r = err e

-- one entry of the manifest
unfoldable pub entry_of : Json → Result Operation
entry_of v = Errors.◌>>=◌ (require (as_mapping v) format_error) operation_of

-- the operations that the entries of a manifest ask for
unfoldable pub operations_of : List Json → Result (List Operation)
unfolding entry_of
operations_of [] = ok []
operations_of (v ∷ vs) = both (entry_of v) (operations_of vs)

-- The disk after a replay that was interrupted when it had applied these entries.
unfoldable pub interrupted : Kernel → List Json → Disk → Disk
interrupted k vs d = ((mkdir_or_raise data_dir >> replay_all k vs) d).1

replay_one-entry :
    (k : Kernel) (v : Json) {o : Operation} (d : Disk)
    → entry_of v ≡ ok o
    → replay_one k v d ≡ apply k o d
unfolding replay_one entry_of of ◌>>=◌
replay_one-entry k v {o} d e = entry (as_mapping v) e
  where
    entry :
        (m : Option Members)
        → Errors.◌>>=◌ (require m format_error) operation_of ≡ ok o
        → (of (require m format_error) >>= λ raw. of (operation_of raw) >>= λ o. apply k o) d
          ≡ apply k o d
    entry none e = cc
    entry (some raw) e = rw e refl

ok_list : {xs ys : List Operation} → ◌≡◌ {A = Result (List Operation)} (ok xs) (ok ys) → xs ≡ ys
ok_list e = cc

cons_of :
    (r : Result Operation) (rs : Result (List Operation)) {os : List Operation}
    → both r rs ≡ ok os
    → (o : Operation) × (rest : List Operation) × (r ≡ ok o) × (rs ≡ ok rest) × (os ≡ o ∷ rest)
cons_of (ok o) (ok rest) e = (o, rest, refl, refl, cc)
cons_of (ok o) (err x) e = cc
cons_of (err x) rs e = cc

replay_all-apply_all :
    (k : Kernel) (vs : List Json) (os : List Operation) (d : Disk)
    → operations_of vs ≡ ok os
    → replay_all k vs d ≡ apply_all k os d
unfolding replay_all operations_of apply_all ◌>>=◌
replay_all-apply_all k [] os d e = rw (← ok_list e) refl
replay_all-apply_all k (v ∷ vs) os d e =
    let (o, rest, first, others, all_of) = cons_of (entry_of v) (operations_of vs) e in
    rw (all_of, replay_one-entry k v d first)
      (after rest (apply k o d) (λ u. replay_all-apply_all k vs rest u others))
  where
    after :
        (rest : List Operation) (r : Result (Unit {0}) × Disk)
        → ((u : Disk) → replay_all k vs u ≡ apply_all k rest u)
        → and_then r (λ _. replay_all k vs) ≡ and_then r (λ _. apply_all k rest)
    after rest (ok u, w) later = later w
    after rest (err x, w) later = refl

made-is_dir : (p : Place) (t t' : Tree) → mkdir p t ≡ some t' → is_dir t' p ≡ true
unfolding mkdir is_dir with_directories
made-is_dir p t t' e = ground (arith, within_refl p)

mkdir_there : (p : Place) (t : Tree) → is_dir t p ≡ true → mkdir p t ≡ some t
unfolding mkdir
mkdir_there p t h = rw h refl

mkdir_or_raise-apply :
    (k : Kernel) (p : Place) (d : Disk) → mkdir_or_raise p d ≡ apply k (make_dir p) d
unfolding mkdir_or_raise apply applied steps put_back look check ◌>>=◌
mkdir_or_raise-apply k p d = elim (Bool-cases (is_dir d.tree p)) [
  | inl there ↦ rw (there, mkdir_there p d.tree there) refl
  | inr fresh ↦ rw fresh (made (mkdir p d.tree) refl)
]
  where
    made :
        (o : Option Tree)
        → mkdir p d.tree ≡ o
        → put_back o d
          ≡ and_then
              (put_back o d)
              (λ _ v. (if is_dir v.tree p then (ok tt, v) else (err Errors.transaction_error, v)))
    made none e = refl
    made (some t) e = rw (made-is_dir p d.tree t e) refl

operations_of-append :
    (vs ws : List Json) (os : List Operation)
    → operations_of (vs ++ ws) ≡ ok os
    → (as_ : List Operation) × (bs : List Operation) × (operations_of vs ≡ ok as_)
      × (os ≡ as_ ++ bs)
unfolding operations_of
operations_of-append [] ws os e = ([], os, refl, refl)
operations_of-append (v ∷ vs) ws os e =
    let (o, rest, first, others, all_of) = cons_of (entry_of v) (operations_of (vs ++ ws)) e in
    let (as_, bs, those, split) = operations_of-append vs ws rest others in
    (o ∷ as_, bs, rw (first, those) refl, rw (all_of, split) refl)

-- the directory, then the entries
run-apply_all :
    (k : Kernel) (vs : List Json) (os : List Operation) (d : Disk)
    → operations_of vs ≡ ok os
    → (mkdir_or_raise data_dir >> replay_all k vs) d ≡ apply_all k (make_dir data_dir ∷ os) d
unfolding apply_all ◌>>=◌
run-apply_all k vs os d e =
    rw (mkdir_or_raise-apply k data_dir d) (after (apply k (make_dir data_dir) d))
  where
    after :
        (r : Result (Unit {0}) × Disk)
        → and_then r (λ _. replay_all k vs) ≡ and_then r (λ _. apply_all k os)
    after (ok u, w) = replay_all-apply_all k vs os w e
    after (err x, w) = refl

-- what a replay returns, once its manifest is accepted
replayed :
    (k : Kernel) (g : ℤ) (m : Members) (vs : List Json) (d : Disk)
    → accepted g m ≡ ok vs
    → replay_transaction k g (ok m) d
      ≡ and_then ((mkdir_or_raise data_dir >> replay_all k vs) d) (λ _. of (ok (nonempty vs)))
unfolding replay_transaction of ◌>>=◌
replayed k g m vs d e = rw e (after (mkdir_or_raise data_dir d))
  where
    after :
        (r : Result (Unit {0}) × Disk)
        → and_then r (λ _. replay_all k vs >> of (ok (nonempty vs)))
          ≡ and_then (and_then r (λ _. replay_all k vs)) (λ _. of (ok (nonempty vs)))
    after (ok u, w) = refl
    after (err x, w) = refl

ran_through :
    (r : Result (Unit {0}) × Disk) (n b : Bool) (d' : Disk)
    → and_then r (λ _. of (ok n)) ≡ (ok b, d')
    → (r ≡ (ok tt, d')) × (n ≡ b)
unfolding of
ran_through (ok u, w) n b d' e = (cc, cc)
ran_through (err x, w) n b d' e = cc

-- A transaction that is replayed without an error, and one that was interrupted after any of its
-- entries: replaying the disk that is left returns the same and ends in the same disk. The entries
-- are those of an accepted manifest, the places of each operation stand apart, and no later
-- operation undoes an earlier one, nor the data directory.
pub replay_transaction-interrupted :
    (k : Kernel) (g : ℤ) (m : Members) (vs ws : List Json) (os : List Operation) (d d' : Disk)
    (b : Bool)
    → accepted g m ≡ ok (vs ++ ws)
    → operations_of (vs ++ ws) ≡ ok os
    → separated (make_dir data_dir ∷ os) ≡ true
    → replay_transaction k g (ok m) d ≡ (ok b, d')
    → replay_transaction k g (ok m) (interrupted k vs d) ≡ (ok b, d')
unfolding interrupted of
replay_transaction-interrupted k g m vs ws os d d' b acc ops apart e =
    let n = nonempty (vs ++ ws) in
    let (as_, bs, those, split) = operations_of-append vs ws os ops in
    let whole = run-apply_all k (vs ++ ws) os d ops in
    let (through, same) = ran_through _ n b d' (sym (replayed k g m (vs ++ ws) d acc) ∙ e) in
    let done : apply_all k ((make_dir data_dir ∷ as_) ++ bs) d ≡ (ok tt, d') =
      rw split at (sym whole ∙ through) in
    let again = apply_all-again k (make_dir data_dir ∷ as_) bs d d' (rw split at apart) done in
    let left : interrupted k vs d ≡ (apply_all k (make_dir data_dir ∷ as_) d).1 =
      ap (λ (r : Result (Unit {0}) × Disk). r.1) (run-apply_all k vs as_ d those) in
    let rerun = run-apply_all k (vs ++ ws) os (interrupted k vs d) ops in
    let finished : (mkdir_or_raise data_dir >> replay_all k (vs ++ ws)) (interrupted k vs d)
        ≡ (ok tt, d') =
      rerun ∙ (rw (split, left) again) in
    replayed k g m (vs ++ ws) (interrupted k vs d) acc
    ∙ ap (λ (r : Result (Unit {0}) × Disk). and_then r (λ _. of (ok n))) finished
    ∙ ap (λ (c : Bool). (ok c, d')) same
