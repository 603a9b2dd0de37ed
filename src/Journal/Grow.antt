-- ===== src/Journal/Grow.antt =====
-- journal.py: a frame that was read once is read again after its segment has grown.
use httk_workflow.Base.{ℕ, ◌≤◌, ◌≡◌, true, ◌++◌, length, take, drop, arith}
use httk_workflow.Json.{Members}
use httk_workflow.Names.Text.{Text, text_eq}
use httk_workflow.Journal.{Bytes, Codec, File, absent, unreadable, holds, segment_header, Cut, cut}
use httk_workflow.Journal.Writer.{grown}
use httk_workflow.Journal.Read.{got, check_cut, frame_at, read_frame}
use httk_workflow.Journal.Cuts.{take-grown, drop-grown, length-drop-le, length-take-le}

-- every read of the cut found all the bytes it asked for
pub record IsWhole (p : Cut) : Type 0 where
  pub lengths : length p.length_bytes ≡ 8
  pub payloads : length p.payload ≡ p.len
  pub checksums : length p.checksum ≡ 32
  pub trailers : length p.trailer ≡ 8

pub cut-grown :
    (b more : Bytes)
    → IsWhole (cut b)
    → cut (b ++ more) ≡ record (cut b) { rest = (cut b).rest ++ more }
unfolding cut
cut-grown b more w =
    let whole : 8 ≤ length b = omega (arith, length-take-le 8 b, w.lengths) in
    let e0 = take-grown 8 b more w.lengths in
    let d0 = drop-grown 8 b more whole in
    let n = (cut b).len in
    let b1 = drop 8 b in
    let e1 = take-grown n b1 more w.payloads in
    let d1 = drop-grown n b1 more (omega (arith, length-take-le n b1, w.payloads)) in
    let b2 = drop n b1 in
    let e2 = take-grown 32 b2 more w.checksums in
    let d2 = drop-grown 32 b2 more (omega (arith, length-take-le 32 b2, w.checksums)) in
    let b3 = drop 32 b2 in
    let e3 = take-grown 8 b3 more w.trailers in
    let d3 = drop-grown 8 b3 more (omega (arith, length-take-le 8 b3, w.trailers)) in
    simp (e0, d0, e1, d1, e2, d2, e3, d3)

check_cut-IsWhole :
    (c : Codec) (n : ℕ) (t : Text) (p : Cut) {m : Members} → check_cut c n t p ≡ got m → IsWhole p
unfolding check_cut
check_cut-IsWhole c n t p h = ground arith

rest_unread :
    (c : Codec) (n : ℕ) (t : Text) (p : Cut) (rest : Bytes) {m : Members}
    → check_cut c n t p ≡ got m
    → check_cut c n t (record p { rest = rest }) ≡ got m
unfolding check_cut
rest_unread c n t p rest h = h

-- the bytes behind a frame do not matter to its reading
pub frame_at-grown :
    (c : Codec) (n : ℕ) (t : Text) (b more : Bytes) {m : Members}
    → frame_at c n t b ≡ got m
    → frame_at c n t (b ++ more) ≡ got m
unfolding frame_at
frame_at-grown c n t b more h =
    let w : IsWhole (cut b) = check_cut-IsWhole c n t (cut b) h in
    rw (cut-grown b more w) (rest_unread c n t (cut b) ((cut b).rest ++ more) h)

-- a frame that is read stands behind a header
unfoldable pub HeaderStands : Bytes → Type 0
HeaderStands b = (length (take 12 b) ≡ 12) × (text_eq (take 12 b) segment_header ≡ true)

read_frame-holds :
    (c : Codec) (b : Bytes) (offset n : ℕ) (t : Text) {m : Members}
    → read_frame c (holds b) offset n t ≡ got m
    → HeaderStands b × (frame_at c n t (drop offset b) ≡ got m)
unfolding read_frame HeaderStands
read_frame-holds c b offset n t h = ground arith

pub read_frame_of :
    (c : Codec) (b : Bytes) (offset n : ℕ) (t : Text) {m : Members}
    → HeaderStands b
    → frame_at c n t (drop offset b) ≡ got m
    → read_frame c (holds b) offset n t ≡ got m
unfolding read_frame HeaderStands
read_frame_of c b offset n t h e = ground arith

HeaderStands-grown : (b more : Bytes) → HeaderStands b → HeaderStands (b ++ more)
unfolding HeaderStands
HeaderStands-grown b more h = rw (take-grown 12 b more h.0) h

within_file :
    (c : Codec) (b : Bytes) (offset n : ℕ) (t : Text) {m : Members}
    → frame_at c n t (drop offset b) ≡ got m
    → offset ≤ length b
unfolding frame_at cut
within_file c b offset n t h =
    let w : IsWhole (cut (drop offset b)) = check_cut-IsWhole c n t (cut (drop offset b)) h in
    length-drop-le offset b (omega (arith, length-take-le 8 (drop offset b), w.lengths))

pub read_frame-grown :
    (c : Codec) (file : File) (offset n : ℕ) (t : Text) (more : Bytes) {m : Members}
    → read_frame c file offset n t ≡ got m
    → read_frame c (grown file more) offset n t ≡ got m
unfolding read_frame grown
read_frame-grown c absent offset n t more h = h
read_frame-grown c unreadable offset n t more h = h
read_frame-grown c (holds b) offset n t more h =
    let (stands, e) = read_frame-holds c b offset n t h in
    let kept = drop-grown offset b more (within_file c b offset n t e) in
    read_frame_of c (b ++ more) offset n t (HeaderStands-grown b more stands)
      (rw kept (frame_at-grown c n t (drop offset b) more e))
