-- ===== src/Journal.antt =====
-- journal.py: the bytes of a segment and of one frame. hashlib and json are not part of the
-- repository and come as a `Codec`.
pub mod Writer
pub mod Read
pub mod Verify
pub mod Walk
pub mod Chain
pub mod Cuts
pub mod Grow
pub mod Kept
pub mod Log
pub mod Listing
pub mod Torn
pub mod Run
pub mod Walked
pub mod Roundtrip
use httk_workflow.Base.{
  ℕ, ◌/◌, ◌%◌, ◌*◌, ◌+◌, ◌≡◌, List, [], ◌∷◌, ◌++◌, Option, length, take, drop, true,
}
use httk_workflow.Json.{Json, Members}
use httk_workflow.Json.Numbers.{codes}
use httk_workflow.Names.RecordRef.{all_bytes}

abbrev pub Bytes : Type 0
Bytes = List ℕ

pub record Codec : Type 0 where
  pub sha256 : Bytes → Bytes  -- `hashlib.sha256(b).digest()`
  pub json_bytes : Members → Bytes  -- `json.dumps(…).encode("utf-8")`
  pub json_loads : Bytes → Option Json  -- none where `json.loads` raises what the readers handle

-- A digest is 32 bytes.
pub record IsCodec (c : Codec) : Type 0 where
  pub digest_length : (b : Bytes) → length (c.sha256 b) ≡ 32
  pub digest_bytes : (b : Bytes) → all_bytes (c.sha256 b) ≡ true

-- What stands at a path: nothing, a file that the system refuses to open, or a file.
pub data File : Type 0 where
  absent unreadable : File
  holds : Bytes → File

-- The segments of each writer: `journal/<writer>/<number>.hwj`.
abbrev pub Segments : Type 0
Segments = List ℕ → ℕ → File

-- SEGMENT_HEADER
abbrev pub segment_header : Bytes
segment_header = 72 ∷ 84 ∷ 84 ∷ 75 ∷ 45 ∷ 72 ∷ 87 ∷ 74 ∷ 45 ∷ 86 ∷ 49 ∷ 10 ∷ []

-- `_LENGTH.pack(n)`, a big-endian 64-bit number
unfoldable pub pack : ℕ → Bytes
pack n =
    n / 0x100000000000000 % 256
    ∷ n / 0x1000000000000 % 256
    ∷ n / 0x10000000000 % 256
    ∷ n / 0x100000000 % 256
    ∷ n / 0x1000000 % 256
    ∷ n / 0x10000 % 256
    ∷ n / 0x100 % 256
    ∷ n % 256
    ∷ []

unpack_from : ℕ → Bytes → ℕ
unpack_from acc [] = acc
unpack_from acc (b ∷ bs) = unpack_from (acc * 256 + b) bs

-- `_LENGTH.unpack(bs)`
unfoldable pub unpack : Bytes → ℕ
unfolding unpack_from
unpack bs = unpack_from 0 bs

-- the checksum of a frame
unfoldable pub frame_digest : Codec → Bytes → Bytes
frame_digest c payload = c.sha256 (pack (length payload) ++ payload)

unfoldable pub frame_bytes : Codec → Bytes → Bytes
unfolding frame_digest
frame_bytes c payload =
    pack (length payload) ++ (payload ++ (frame_digest c payload ++ pack (length payload)))

-- what both readers read of a frame, one read after the other, and what is left
pub record Cut : Type 0 where
  pub length_bytes : Bytes
  pub len : ℕ
  pub payload : Bytes
  pub checksum : Bytes
  pub trailer : Bytes
  pub rest : Bytes

unfoldable pub cut : Bytes → Cut
unfolding unpack
cut b =
    let len = unpack (take 8 b) in
    record {
      length_bytes = take 8 b;
      len = len;
      payload = take len (drop 8 b);
      checksum = take 32 (drop len (drop 8 b));
      trailer = take 8 (drop 32 (drop len (drop 8 b)));
      rest = drop 8 (drop 32 (drop len (drop 8 b)));
    }
