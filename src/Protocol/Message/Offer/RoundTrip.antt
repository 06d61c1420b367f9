-- ===== src/Protocol/Message/Offer/RoundTrip.antt =====
-- An offer that the sender builds is read by the receiver as it was.
use drop_zone.Base.{
  ℕ, ◌+◌, ◌%◌, ◌^◌, ◌≤◌, ◌<◌, ◌≡◌, refl, ap, true, false, not, ◌&&◌, List, [], ◌∷◌, ◌++◌, All,
  length, ltb, ◌==◌, arith,
}
use drop_zone.Base.Bits.{bit_and-mask}
use drop_zone.Base.Result.{Result, ok, too_many_files, total_mismatch}
use drop_zone.Wire.Endian.{store_u32, store_u64}
use drop_zone.Wire.Header.{max_frame_length}
use drop_zone.Wire.Writer.{Writer}
use drop_zone.Wire.Reader.{pure, fail_if, ◌>>=◌, ◌>>◌, take_u32}
use drop_zone.Wire.Reads.{
  Reads, Reads-last, Reads-bind, Reads-bind_end, Reads-pure, Reads-fail_if, Reads-map, Reads-result,
  Reads-take_u8, Reads-take_u32, Reads-take_u64, Reads-take_bool, Reads-take_string,
  Reads-take_fixed, bool_byte, prefixed, each_bytes,
}
use drop_zone.Protocol.Name.{is_valid_username, short_name}
use drop_zone.Protocol.Path.{is_safe_relative_path, sanitize_relative_path}
use drop_zone.Protocol.Path.Split.{is_safe_relative_path_iff}
use drop_zone.Protocol.Message.Common.{decode_with-ReadsLast, puts, put_each_lem}
use drop_zone.Protocol.Message.Offer.{
  AeadAlgorithm, aes256_gcm, cha_cha20_poly1305, algorithm_byte, algorithm_of, ManifestEntry,
  TransferOffer, put_entry, encode_transfer_offer, take_entry, take_entries, parse_transfer_offer,
  decode_transfer_offer, lift, sum_sizes, max_manifest_entries, chunk_header_size, aead_tag_size,
}

pub record IsEntry (entry : ManifestEntry) : Type 0 where
  pub safe : is_safe_relative_path entry.path ≡ true
  pub size_fits : entry.size < 2 ^ 64
  pub permissions : entry.mode < 2 ^ 9
  pub digest_size : length entry.digest ≡ 32

pub record IsOffer (offer : TransferOffer) : Type 0 where
  pub valid_sender : is_valid_username offer.sender_username ≡ true
  pub display_fits : length offer.display_name < 2 ^ 32
  pub entries_valid : All IsEntry offer.entries
  pub few_entries : length offer.entries ≤ max_manifest_entries
  pub chunk_positive : 0 < offer.chunk_size
  pub chunk_fits : offer.chunk_size + chunk_header_size + aead_tag_size ≤ max_frame_length
  pub total : offer.total_bytes ≡ sum_sizes offer.entries % 2 ^ 64

abbrev entry_bytes : ManifestEntry → List ℕ
entry_bytes e = prefixed e.path ++ (store_u64 e.size ++ (store_u32 e.mode ++ prefixed e.digest))

put_entry_lem : (e : ManifestEntry) (w : Writer) → put_entry e w ≡ w ++ entry_bytes e
unfolding put_entry
put_entry_lem e w = simp puts

Reads-lift {ℓ} : {A : Type ℓ} (m : Result A) (a : A) → m ≡ ok a → Reads (lift m) [] a
Reads-lift m a e = rw e (record { apply = λ r rest h. (Reads-pure a).apply r rest h })

sanitize-ok :
    (path : List ℕ) → is_safe_relative_path path ≡ true → sanitize_relative_path path ≡ ok path
unfolding sanitize_relative_path
sanitize-ok path h = rw h

short_path : (path : List ℕ) → is_safe_relative_path path ≡ true → length path < 2 ^ 32
short_path path h = omega (arith, ((is_safe_relative_path_iff path).0.0 h).short)

Reads-take_entry : (e : ManifestEntry) → IsEntry e → Reads take_entry (entry_bytes e) e
unfolding take_entry
Reads-take_entry e v = Reads-bind (Reads-take_string e.path (short_path e.path v.safe)) _ (
    Reads-bind (Reads-lift (sanitize_relative_path e.path) e.path (sanitize-ok e.path v.safe)) _ (
      Reads-bind (Reads-take_u64 e.size v.size_fits) _ (
        Reads-bind (Reads-take_u32 e.mode (omega (arith, v.permissions))) _ (
          Reads-result (Reads-map _ (Reads-take_fixed e.digest 32 v.digest_size (omega arith)))
            (ap (λ m. record e { mode = m }) (bit_and-mask 9 e.mode v.permissions))))))

small_sum : (n : ℕ) → n < 2 ^ 64 → n ≡ (n + 0) % 2 ^ 64
small_sum n h = omega arith

next_sum : (n a b : ℕ) → ((n + a) % 2 ^ 64 + b) % 2 ^ 64 ≡ (n + (a + b)) % 2 ^ 64
next_sum n a b = omega arith

Reads-take_entries :
    (es : List ManifestEntry) (summed : ℕ)
    → summed < 2 ^ 64
    → All IsEntry es
    → Reads
        (take_entries (length es) summed)
        (each_bytes entry_bytes es)
        (es, (summed + sum_sizes es) % 2 ^ 64)
unfolding take_entries
Reads-take_entries [] summed h v =
    Reads-result (Reads-pure ([], summed)) (ap (λ n. ([], n)) (small_sum summed h))
Reads-take_entries (e ∷ es) summed h v = Reads-bind (Reads-take_entry e v.0) _ (
    Reads-result
      (Reads-map _ (Reads-take_entries es ((summed + e.size) % 2 ^ 64) (omega arith) v.1))
      (ap (λ n. (e ∷ es, n)) (next_sum summed e.size (sum_sizes es))))

Reads-algorithm :
    (a : AeadAlgorithm)
    → (not (algorithm_byte a == 1) && not (algorithm_byte a == 2) ≡ false)
      × (algorithm_of (algorithm_byte a) ≡ a)
unfolding algorithm_byte algorithm_of
Reads-algorithm aes256_gcm = (refl, refl)
Reads-algorithm cha_cha20_poly1305 = (refl, refl)

abbrev offer_bytes : TransferOffer → List ℕ
offer_bytes o =
    prefixed o.sender_username
    ++ (prefixed o.display_name
        ++ ((bool_byte o.encrypt_payload ∷ [])
            ++ ((algorithm_byte o.algorithm ∷ [])
                ++ ((bool_byte o.digests_present ∷ [])
                    ++ (store_u32 o.chunk_size
                        ++ (store_u64 o.total_bytes
                            ++ (store_u32 (length o.entries % 2 ^ 32)
                                ++ each_bytes entry_bytes o.entries)))))))

encode_transfer_offer-bytes : (o : TransferOffer) → encode_transfer_offer o ≡ offer_bytes o
unfolding encode_transfer_offer
encode_transfer_offer-bytes o = simp (puts, put_each_lem put_entry entry_bytes put_entry_lem)

small_entries : (n : ℕ) → n < 2 ^ 32 → n % 2 ^ 32 ≡ n
small_entries n h = omega arith

-- The count, the entries and the check of the total.
Reads-listed :
    (o : TransferOffer)
    → IsOffer o
    → Reads
        (do
          count ← take_u32
          fail_if (ltb max_manifest_entries count) (too_many_files count)
          listed ← take_entries count 0
          fail_if (not (listed.1 == o.total_bytes)) total_mismatch
          pure (record {
            sender_username = o.sender_username;
            display_name = o.display_name;
            entries = listed.0;
            total_bytes = o.total_bytes;
            encrypt_payload = o.encrypt_payload;
            algorithm = algorithm_of (algorithm_byte o.algorithm);
            chunk_size = o.chunk_size;
            digests_present = o.digests_present;
          }))
        (store_u32 (length o.entries % 2 ^ 32) ++ each_bytes entry_bytes o.entries)
        o
Reads-listed o v = rw (small_entries (length o.entries) (omega (arith, v.few_entries))) (
    Reads-bind (Reads-take_u32 (length o.entries) (omega (arith, v.few_entries))) _ (
      Reads-fail_if _ (ground (arith, v.few_entries)) (
        Reads-bind_end (Reads-take_entries o.entries 0 (omega arith) v.entries_valid) _ (
          Reads-fail_if _ (ground (arith, v.total)) (
            Reads-result (Reads-pure _)
              (ap (λ a. record o { algorithm = a }) (Reads-algorithm o.algorithm).1))))))

Reads-offer : (o : TransferOffer) → IsOffer o → Reads parse_transfer_offer (offer_bytes o) o
unfolding parse_transfer_offer
Reads-offer o v =
    Reads-bind (Reads-take_string o.sender_username (short_name o.sender_username v.valid_sender)) _
      (Reads-fail_if _ (rw v.valid_sender refl) (
        Reads-bind (Reads-take_string o.display_name v.display_fits) _ (
          Reads-bind (Reads-take_bool o.encrypt_payload) _ (
            Reads-bind (Reads-take_u8 (algorithm_byte o.algorithm)) _ (
              Reads-fail_if _ (Reads-algorithm o.algorithm).0 (
                Reads-bind (Reads-take_bool o.digests_present) _ (
                  Reads-bind (Reads-take_u32 o.chunk_size (omega (arith, v.chunk_fits))) _ (
                    Reads-fail_if _ (ground (arith, v.chunk_positive, v.chunk_fits)) (
                      Reads-bind (Reads-take_u64 o.total_bytes (omega (arith, v.total))) _
                        (Reads-listed o v))))))))))

-- An offer with a valid sender, a display name shorter than 2 ^ 32 bytes, at most 200000 entries
-- with safe paths, sizes of 64 bits, permission bits only and digests of 32 bytes, a usable
-- chunk size and a total that is the sum of the sizes modulo 2 ^ 64, is read by the receiver as
-- it was.
pub transfer_offer_round_trip :
    (o : TransferOffer) → IsOffer o → decode_transfer_offer (encode_transfer_offer o) ≡ ok o
unfolding decode_transfer_offer
transfer_offer_round_trip o v =
    rw (encode_transfer_offer-bytes o)
      (decode_with-ReadsLast parse_transfer_offer _ o (Reads-last (Reads-offer o v)))
