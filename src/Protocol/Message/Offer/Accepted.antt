-- ===== src/Protocol/Message/Offer/Accepted.antt =====
-- What holds of every offer that the receiver's decoder accepts, whoever wrote the bytes.
use drop_zone.Base.{
  ℕ, zero, suc, ◌+◌, ◌-◌, ◌%◌, ◌^◌, ◌≤◌, ◌<◌, ◌≡◌, refl, ap, Bool, true, not, ◌&&◌, ◌||◌, List, All,
  length, ltb, ◌==◌, arith,
}
use drop_zone.Base.Bits.{bit_and-le}
use drop_zone.Base.Result.{ok}
use drop_zone.Wire.Header.{max_frame_length}
use drop_zone.Wire.Reader.{take_string, take_fixed, take_u8, take_u32, take_u64, take_bool}
use drop_zone.Wire.Ensures.{
  Ensures, Ensures-step, Ensures-bind, Ensures-pure, Ensures-fail_if, decode_with-Ensures,
}
use drop_zone.Protocol.Name.{is_valid_username}
use drop_zone.Protocol.Path.{is_safe_relative_path, sanitize_relative_path}
use drop_zone.Protocol.Message.Offer.{
  ManifestEntry, TransferOffer, take_entry, take_entries, parse_transfer_offer,
  decode_transfer_offer, lift, sum_sizes, max_manifest_entries, chunk_header_size, aead_tag_size,
}

-- A manifest entry that is safe to create: its path stays below the output directory and its mode
-- has permission bits only.
pub record IsSafeEntry (entry : ManifestEntry) : Type 0 where
  pub safe : is_safe_relative_path entry.path ≡ true
  pub permissions : entry.mode ≤ 511

pub record IsAccepted (offer : TransferOffer) : Type 0 where
  pub valid_sender : is_valid_username offer.sender_username ≡ true
  pub safe_entries : All IsSafeEntry offer.entries
  pub few_entries : length offer.entries ≤ max_manifest_entries
  pub chunk_positive : 0 < offer.chunk_size
  pub chunk_fits : offer.chunk_size + chunk_header_size + aead_tag_size ≤ max_frame_length
  pub total : offer.total_bytes ≡ sum_sizes offer.entries % 2 ^ 64

sanitized :
    (raw : List ℕ)
    → Ensures (lift (sanitize_relative_path raw)) (λ p. is_safe_relative_path p ≡ true)
unfolding sanitize_relative_path
sanitized raw = record { apply = λ r p s e. ground arith }

Ensures-take_entry : Ensures take_entry IsSafeEntry
unfolding take_entry
Ensures-take_entry = Ensures-step take_string _ λ raw. Ensures-bind _ (sanitized raw) λ path safe.
    Ensures-step take_u64 _ λ size. Ensures-step take_u32 _ λ mode.
      Ensures-step (take_fixed 32) _
        λ digest. Ensures-pure _ (record { safe = safe; permissions = bit_and-le mode 511 })

-- What the loop returns: safe entries, as many as were declared, and their wrapped sum.
record Listed (count summed : ℕ) (out : List ManifestEntry × ℕ) : Type 0 where
  safe : All IsSafeEntry out.0
  counted : length out.0 ≡ count
  added : out.1 % 2 ^ 64 ≡ (summed + sum_sizes out.0) % 2 ^ 64
  wrapped : summed < 2 ^ 64 → out.1 < 2 ^ 64

Ensures-take_entries :
    (count summed : ℕ) → Ensures (take_entries count summed) (Listed count summed)
unfolding take_entries
Ensures-take_entries zero summed =
    Ensures-pure _ (record { safe = tt; counted = refl; added = omega arith; wrapped = λ h. h })
Ensures-take_entries (suc count) summed = Ensures-bind _ Ensures-take_entry λ entry safe.
    Ensures-bind _ (Ensures-take_entries count ((summed + entry.size) % 2 ^ 64)) λ rest listed.
      Ensures-pure _ (record {
        safe = (safe, listed.safe);
        counted = ap suc listed.counted;
        added = omega (arith, listed.added);
        wrapped = λ h. listed.wrapped (omega arith);
      })

abbrev unusable : ℕ → Bool
unusable chunk = chunk == 0 || ltb (max_frame_length - chunk_header_size - aead_tag_size) chunk

-- Every offer that the decoder accepts names a valid sender, at most 200000 files, each with a path
-- that stays below the output directory and a mode of permission bits only, a chunk size with which
-- a chunk frame fits the frame limit, and a total that is the sum of the sizes modulo 2 ^ 64.
pub decode-IsAccepted :
    (payload : List ℕ) (offer : TransferOffer)
    → decode_transfer_offer payload ≡ ok offer
    → IsAccepted offer
unfolding decode_transfer_offer parse_transfer_offer
decode-IsAccepted payload offer e = decode_with-Ensures payload offer parsed e
  where
    parsed : Ensures parse_transfer_offer IsAccepted
    parsed = Ensures-step take_string _ λ sender.
        Ensures-fail_if (not (is_valid_username sender)) _ _ λ valid.
          Ensures-step take_string _ λ display. Ensures-step take_bool _ λ encrypt.
            Ensures-step take_u8 _ λ algorithm.
              Ensures-fail_if (not (algorithm == 1) && not (algorithm == 2)) _ _ λ known.
                Ensures-step take_bool _ λ digests. Ensures-step take_u32 _ λ chunk.
                  Ensures-fail_if (unusable chunk) _ _ λ usable. Ensures-step take_u64 _ λ total.
                    Ensures-step take_u32 _ λ count.
                      Ensures-fail_if (ltb max_manifest_entries count) _ _ λ few.
                        Ensures-bind _ (Ensures-take_entries count 0) λ listed l.
                          Ensures-fail_if (not (listed.1 == total)) _ _ λ equal.
                            Ensures-pure _ (record {
                              valid_sender = ground arith;
                              safe_entries = l.safe;
                              few_entries = ground (arith, l.counted);
                              chunk_positive = ground arith;
                              chunk_fits = ground arith;
                              total = ground (arith, l.added, l.wrapped);
                            })
