-- ===== src/Crypto.antt =====
-- components/crypto/src: what the program takes from the library `ring`. A fixed array of bytes
-- (`PublicKey`, `Signature`, `Uid`, `HashResult`, `HashedLock`, `PlainLock`, `RandValue`,
-- `InvoiceId`) is the number that its bytes spell, most significant first; its width is stated
-- where the bytes are written out.
use offst.Prelude.{ℕ, zero, suc, ◌/◌, ◌%◌, Bool, List, [], ◌∷◌, ◌++◌, ltb}

abbrev pub PublicKey : Type 0
PublicKey = ℕ

abbrev pub Signature : Type 0
Signature = ℕ

abbrev pub Uid : Type 0
Uid = ℕ

abbrev pub HashResult : Type 0
HashResult = ℕ

abbrev pub HashedLock : Type 0
HashedLock = ℕ

abbrev pub PlainLock : Type 0
PlainLock = ℕ

abbrev pub RandValue : Type 0
RandValue = ℕ

abbrev pub InvoiceId : Type 0
InvoiceId = ℕ

-- Widths in bytes.
abbrev pub uid_len : ℕ
uid_len = 16

abbrev pub hash_len : ℕ
hash_len = 32

abbrev pub public_key_len : ℕ
public_key_len = 32

abbrev pub signature_len : ℕ
signature_len = 64

abbrev pub rand_value_len : ℕ
rand_value_len = 16

-- The last `w` bytes of a number, most significant first: the bytes of an array, and what
-- `write_u64::<BigEndian>` and `write_u128::<BigEndian>` write.
unfoldable pub be_bytes : ℕ → ℕ → List ℕ
be_bytes zero n = []
be_bytes (suc w) n = be_bytes w (n / 256) ++ (n % 256 ∷ [])

-- `digest(&SHA512_256, _)` and `signature::verify(&ED25519, _, _, _).is_ok()` of `ring`.
pub record Crypto : Type 0 where
  pub sha_512_256 : List ℕ → HashResult
  pub verify_signature : List ℕ → PublicKey → Signature → Bool

module _ (crypto : Crypto) where
  open crypto use {sha_512_256}

  -- `PlainLock::hash`
  unfoldable pub hash_lock : PlainLock → HashedLock
  hash_lock p = sha_512_256 (be_bytes hash_len p)

  -- `compare_public_key(a, b) == Ordering::Less`: arrays of one length are ordered as numbers.
  unfoldable pub public_key_less : PublicKey → PublicKey → Bool
  public_key_less a b =
      ltb (sha_512_256 (be_bytes public_key_len a)) (sha_512_256 (be_bytes public_key_len b))
