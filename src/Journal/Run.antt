-- ===== src/Journal/Run.antt =====
-- journal.py: the life of one writer, and what is found in its segments afterwards.
use httk_workflow.Base.{
  ℕ, zero, suc, ◌+◌, ◌<◌, ◌≤◌, ◌≡◌, refl, ap, Option, none, some, List, [], ◌∷◌, ◌++◌, map, length,
  arith,
}
use mathlib.Core.Path.{subst}
use mathlib.Core.List.{append_assoc, append-nil, map-append}
use httk_workflow.Errors.{Result, ok, err}
use httk_workflow.Json.{Members}
use httk_workflow.Names.Text.{Text}
use httk_workflow.Journal.{Bytes, Codec, IsCodec, File, Segments, frame_bytes}
use httk_workflow.Journal.Writer.{
  JournalWriter, Writing, and_then, append, new_writer, stored, written, created, close, ◌>>=◌,
}
use httk_workflow.Journal.Walk.{JournalFrame, maximum_frame_bytes, iter_segment_frames, both_found}
use httk_workflow.Journal.Log.{
  frames, Records, fresh, Target, here, next, Target-Records, append-ok, written-Records,
  open_segment-ok, created-Records,
}
use httk_workflow.Journal.Listing.{listing, record_of, Believed}
use httk_workflow.Journal.Torn.{iter-Records}

-- a writer that appends these records, one after the other
unfoldable pub append_all : Codec → List Members → Writing (Unit {0})
append_all c [] j = (ok tt, j)
append_all c (r ∷ rs) j = (append c r >>= λ _. append_all c rs) j

-- what the walk finds in the segments of a writer below this number, in their order
unfoldable pub found_below : Codec → Segments → Text → ℕ → Option (List JournalFrame)
found_below c disk w zero = some []
found_below c disk w (suc n) =
    both_found (found_below c disk w n) (iter_segment_frames c (disk w n) w n)

abbrev pub members_of : Option (List JournalFrame) → Option (List Members)
members_of none = none
members_of (some fs) = some (map (λ (f : JournalFrame). f.frame) fs)

-- The specification: the records that some payloads stand for. One that is no JSON object stands
-- for none.
unfoldable pub recorded : Codec → List Bytes → List Members
recorded c [] = []
recorded c (p ∷ ps) = elim (record_of c p) [ none ↦ recorded c ps | some m ↦ m ∷ recorded c ps ]

recorded-append :
    (c : Codec) (ps qs : List Bytes) → recorded c (ps ++ qs) ≡ recorded c ps ++ recorded c qs
unfolding recorded
recorded-append c [] qs = refl
recorded-append c (p ∷ ps) qs = ground (arith, recorded-append c ps qs)

members-listing :
    (c : Codec) (w : Text) (segment offset : ℕ) (ps : List Bytes)
    → map (λ (f : JournalFrame). f.frame) (listing c w segment offset ps) ≡ recorded c ps
unfolding recorded listing
members-listing c w segment offset [] = refl
members-listing c w segment offset (p ∷ ps) =
    ground (arith, members-listing c w segment (offset + (48 + length p)) ps)

-- The closed segments hold these payloads.
abbrev Closed : Codec → JournalWriter → List Bytes → Type 0
Closed c j done =
    members_of (found_below c j.disk j.writer_id j.segment_number) ≡ some (recorded c done)

members-both_found :
    (x y : Option (List JournalFrame)) {ms ns : List Members}
    → members_of x ≡ some ms
    → members_of y ≡ some ns
    → members_of (both_found x y) ≡ some (ms ++ ns)
members-both_found none y e f = cc
members-both_found (some xs) none e f = cc
members-both_found (some xs) (some ys) e f = simp map-append (cc)

stored_other :
    (w : Text) (n k : ℕ) (file : File) (disk : Segments)
    → k < n
    → stored w n file disk w k ≡ disk w k
unfolding stored
stored_other w n k file disk h = ground arith

-- what is found below a segment does not depend on that segment
found_below-stored :
    (c : Codec) (disk : Segments) (w : Text) (n k : ℕ) (file : File)
    → k ≤ n
    → found_below c (stored w n file disk) w k ≡ found_below c disk w k
unfolding found_below
found_below-stored c disk w n zero file h = refl
found_below-stored c disk w n (suc k) file h =
    rw (found_below-stored c disk w n k file (omega arith), stored_other w n k file disk h) refl

-- The segments of a writer hold these payloads, in this order.
record Holding (c : Codec) (j : JournalWriter) (all : List Bytes) : Type 0 where
  done : List Bytes
  ps : List Bytes
  split : all ≡ done ++ ps
  records : Records c j ps
  closed : Closed c j done
  believed : Believed ps

Believed-append :
    (ps : List Bytes) (p : Bytes)
    → Believed ps
    → length p ≤ maximum_frame_bytes
    → Believed (ps ++ p ∷ [])
Believed-append [] p b h = (h, tt)
Believed-append (q ∷ ps) p b h = (b.0, Believed-append ps p b.1 h)

-- Writing into the open segment leaves the closed ones.
written-Closed :
    (c : Codec) (j : JournalWriter) (position : ℕ) (frame : Bytes) (done : List Bytes)
    → Closed c j done
    → Closed c (written position frame j) done
unfolding written
written-Closed c j position frame done h =
    rw (found_below-stored c j.disk j.writer_id j.segment_number j.segment_number _ (omega arith)) h

created-Closed :
    (c : Codec) (j : JournalWriter) (ps : List Bytes) (h : Records c j ps) (all : List Bytes)
    → members_of (found_below c j.disk j.writer_id (suc j.segment_number)) ≡ some (recorded c all)
    → Closed c (created (suc j.segment_number) (fresh c j ps h)).1 all
unfolding created fresh close
created-Closed c j ps h all e =
    rw
      (found_below-stored c j.disk j.writer_id (suc j.segment_number) (suc j.segment_number) _
        (omega arith))
      e

module _ (c : Codec) (k : IsCodec c) where
  found-Holding :
      (j : JournalWriter) (all : List Bytes)
      → Holding c j all
      → members_of (found_below c j.disk j.writer_id (suc j.segment_number)) ≡ some (recorded c all)
  unfolding found_below
  found-Holding j all h =
      let tail = iter-Records c k j h.ps h.records h.believed in
      let tail_members : members_of (
            iter_segment_frames c (j.disk j.writer_id j.segment_number) j.writer_id
              j.segment_number)
          ≡ some (recorded c h.ps) =
        rw tail (ap some (members-listing c j.writer_id j.segment_number 12 h.ps)) in
      rw (h.split, recorded-append c h.done h.ps) (members-both_found _ _ h.closed tail_members)

  append-Holding :
      (j j' : JournalWriter) (all : List Bytes) (r : Members) {ref : Text}
      → Holding c j all
      → length (c.json_bytes r) ≤ maximum_frame_bytes
      → append c r j ≡ (ok ref, j')
      → Holding c j' (all ++ c.json_bytes r ∷ [])
  append-Holding j j' all r {ref} h small e =
      let (base, qs, target, wrote) = append-ok c j h.ps h.records r e in
      rw wrote.1 (stepped target)
    where
      stepped :
          {base : JournalWriter} {qs : List Bytes}
          → Target c j h.ps h.records (c.json_bytes r) base qs
          → Holding c
              (written (12 + length (frames c qs)) (frame_bytes c (c.json_bytes r)) base)
              (all ++ c.json_bytes r ∷ [])
      stepped (here room) = record {
        done = h.done;
        ps = h.ps ++ c.json_bytes r ∷ [];
        split = rw (h.split, append_assoc) refl;
        records = written-Records c j h.ps (c.json_bytes r) h.records;
        closed = written-Closed c j _ _ h.done h.closed;
        believed = Believed-append h.ps (c.json_bytes r) h.believed small;
      }
      stepped (next full n) = record {
        done = all;
        ps = c.json_bytes r ∷ [];
        split = refl;
        records =
            written-Records c _ [] (c.json_bytes r)
              (Target-Records c j h.ps h.records (c.json_bytes r) (next full n));
        closed =
            written-Closed c (created (suc j.segment_number) (fresh c j h.ps h.records)).1 _ _ all
              (created-Closed c j h.ps h.records all (found-Holding j all h));
        believed = (small, tt);
      }

  new_writer-Holding :
      (writer_id : Text) (maximum : ℕ) (disk : Segments) (j : JournalWriter)
      → new_writer writer_id maximum disk ≡ (ok tt, j)
      → Holding c j []
  unfolding new_writer created found_below recorded
  new_writer-Holding writer_id maximum disk j made =
      let (j_is, n) = open_segment-ok 0 _ j made in
      rw j_is (record {
        done = [];
        ps = [];
        split = refl;
        records =
            created-Records c 0
              (record {
                writer_id = writer_id;
                segment_number = 0;
                handle = none;
                maximum_segment_bytes = maximum;
                disk = disk;
              })
              refl n;
        closed = refl;
        believed = tt;
      })

  append_all-Holding :
      (rs : List Members) (j j' : JournalWriter) (all : List Bytes)
      → Holding c j all
      → Believed (map c.json_bytes rs)
      → append_all c rs j ≡ (ok tt, j')
      → Holding c j' (all ++ map c.json_bytes rs)
  unfolding append_all
  append_all-Holding [] j j' all h b e = rw append-nil (
      subst (λ (w : JournalWriter). Holding c w all)
        (ap (λ (x : Result (Unit {0}) × JournalWriter). x.1) e) h)
  append_all-Holding (r ∷ rs) j j' all h b e =
      after (append c r j) refl (λ v. append_all-Holding rs v j' (all ++ c.json_bytes r ∷ [])) e
    where
      after :
          (x : Result Text × JournalWriter)
          → append c r j ≡ x
          → ((v : JournalWriter)
              → Holding c v (all ++ c.json_bytes r ∷ [])
              → Believed (map c.json_bytes rs)
              → append_all c rs v ≡ (ok tt, j')
              → Holding c j' ((all ++ c.json_bytes r ∷ []) ++ map c.json_bytes rs))
          → and_then x (λ _. append_all c rs) ≡ (ok tt, j')
          → Holding c j' (all ++ c.json_bytes r ∷ map c.json_bytes rs)
      after (err y, v) a later e = cc
      after (ok ref, v) a later e =
          rw append_assoc at (later v (append-Holding j v all r h b.0 a) b.1 e)

  -- A new writer that has appended some records, without an error: the walk over its segments, from
  -- the first to the one that is open, finds the records that their JSON denotes, all of them and in
  -- the order of the appends, wherever the segments were changed. No JSON may be larger than the walk
  -- accepts.
  pub found-append_all :
      (writer_id : Text) (maximum : ℕ) (disk : Segments) (rs : List Members) (j j' : JournalWriter)
      → new_writer writer_id maximum disk ≡ (ok tt, j)
      → append_all c rs j ≡ (ok tt, j')
      → Believed (map c.json_bytes rs)
      → members_of (found_below c j'.disk j'.writer_id (suc j'.segment_number))
        ≡ some (recorded c (map c.json_bytes rs))
  found-append_all writer_id maximum disk rs j j' made ran b =
      found-Holding j' (map c.json_bytes rs)
        (append_all-Holding rs j j' [] (new_writer-Holding writer_id maximum disk j made) b ran)
