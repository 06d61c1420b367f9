-- ===== src/Protocol/Message/Offer.antt =====
-- common/src/protocol.cpp: TransferOffer, the sender's manifest.
pub mod Accepted
pub mod RoundTrip
use Prim.Native.Nat.{bit_and}
use drop_zone.Base.{
  ℕ, zero, suc, ◌+◌, ◌-◌, ◌*◌, ◌%◌, ◌^◌, ◌≡◌, Bool, true, false, not, ◌&&◌, ◌||◌, List, [], ◌∷◌,
  length, ltb, ◌==◌, if◌then◌else◌,
}
use drop_zone.Base.Result.{
  Result, ok, err, invalid_username, unknown_cipher, unusable_chunk_size, too_many_files,
  total_mismatch,
}
use drop_zone.Wire.Header.{max_frame_length}
use drop_zone.Wire.Writer.{
  Writer, ◌▹◌, put_u8, put_u32, put_u64, put_bool, put_bytes, put_string, put_each,
}
use drop_zone.Wire.Reader.{
  Reader, Parser, decode_with, pure, fail_if, ◌>>=◌, ◌>>◌, take_u8, take_u32, take_u64, take_bool,
  take_string, take_fixed,
}
use drop_zone.Protocol.Name.{is_valid_username}
use drop_zone.Protocol.Path.{sanitize_relative_path}

abbrev pub max_manifest_entries : ℕ
max_manifest_entries = 200000

abbrev pub chunk_header_size : ℕ
chunk_header_size = 24

abbrev pub aead_tag_size : ℕ
aead_tag_size = 16

-- `enum class AeadAlgorithm`: 1 and 2.
pub data AeadAlgorithm : Type 0 where
  aes256_gcm cha_cha20_poly1305 : AeadAlgorithm

unfoldable pub algorithm_byte : AeadAlgorithm → ℕ
algorithm_byte aes256_gcm = 1
algorithm_byte cha_cha20_poly1305 = 2

unfoldable pub algorithm_of : ℕ → AeadAlgorithm
algorithm_of byte = if byte == 1 then aes256_gcm else cha_cha20_poly1305

pub record ManifestEntry : Type 0 where
  pub path : List ℕ
  pub size : ℕ
  pub mode : ℕ
  pub digest : List ℕ

pub record TransferOffer : Type 0 where
  pub sender_username : List ℕ
  pub display_name : List ℕ
  pub entries : List ManifestEntry
  pub total_bytes : ℕ
  pub encrypt_payload : Bool
  pub algorithm : AeadAlgorithm
  pub chunk_size : ℕ
  pub digests_present : Bool

unfoldable pub put_entry : ManifestEntry → Writer → Writer
put_entry entry writer =
    writer
    ▹ put_string entry.path
    ▹ put_u64 entry.size
    ▹ put_u32 entry.mode
    ▹ put_bytes entry.digest

unfoldable pub encode_transfer_offer : TransferOffer → List ℕ
encode_transfer_offer offer =
    []
    ▹ put_string offer.sender_username
    ▹ put_string offer.display_name
    ▹ put_bool offer.encrypt_payload
    ▹ put_u8 (algorithm_byte offer.algorithm)
    ▹ put_bool offer.digests_present
    ▹ put_u32 offer.chunk_size
    ▹ put_u64 offer.total_bytes
    ▹ put_u32 (length offer.entries % 2 ^ 32)
    ▹ put_each put_entry offer.entries

-- A call that may fail, in the middle of a decoder.
abbrev pub lift {ℓ} : {A : Type ℓ} → Result A → Parser A
lift m r = elim m [ ok a ↦ ok (a, r) | err e ↦ err e ]

-- One round of the loop; only permission bits of the mode are kept.
unfoldable pub take_entry : Parser ManifestEntry
take_entry = do
  raw ← take_string
  path ← lift (sanitize_relative_path raw)
  size ← take_u64
  mode ← take_u32
  digest ← take_fixed 32
  pure (record { path = path; size = size; mode = bit_and mode 511; digest = digest })

-- The loop over `count` entries; `summed` is a uint64_t.
unfoldable pub take_entries : ℕ → ℕ → Parser (List ManifestEntry × ℕ)
take_entries zero summed = pure ([], summed)
take_entries (suc count) summed = do
  entry ← take_entry
  rest ← take_entries count ((summed + entry.size) % 2 ^ 64)
  pure (entry ∷ rest.0, rest.1)

pub parse_transfer_offer : Parser TransferOffer
parse_transfer_offer = do
  sender_username ← take_string
  fail_if (not (is_valid_username sender_username)) invalid_username
  display_name ← take_string
  encrypt_payload ← take_bool
  algorithm ← take_u8
  fail_if (not (algorithm == 1) && not (algorithm == 2)) unknown_cipher
  digests_present ← take_bool
  chunk_size ← take_u32
  fail_if (chunk_size == 0 || ltb (max_frame_length - chunk_header_size - aead_tag_size) chunk_size)
      unusable_chunk_size
  total_bytes ← take_u64
  count ← take_u32
  fail_if (ltb max_manifest_entries count) (too_many_files count)
  listed ← take_entries count 0
  fail_if (not (listed.1 == total_bytes)) total_mismatch
  pure (record {
    sender_username = sender_username;
    display_name = display_name;
    entries = listed.0;
    total_bytes = total_bytes;
    encrypt_payload = encrypt_payload;
    algorithm = algorithm_of algorithm;
    chunk_size = chunk_size;
    digests_present = digests_present;
  })

unfoldable pub decode_transfer_offer : List ℕ → Result TransferOffer
decode_transfer_offer = decode_with parse_transfer_offer

-- What the loop adds up.
abbrev pub sum_sizes : List ManifestEntry → ℕ
sum_sizes [] = 0
sum_sizes (e ∷ es) = e.size + sum_sizes es
