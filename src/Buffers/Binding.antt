-- ===== src/Buffers/Binding.antt =====
-- components/proto/src/funder/signature_buff.rs: what a signature over a response binds.
use native.Mathlib.Nat.{pow-suc}
use offst.Prelude.{
  ℕ, zero, suc, ◌/◌, ◌%◌, ◌^◌, ◌<◌, ◌≡◌, refl, sym, ◌∙◌, List, [], ◌∷◌, ◌++◌, arith, length,
  length-append,
}
use offst.Crypto.{Crypto, Signature, be_bytes}
use offst.Messages.{ResponseSendFundsOp, PendingTransaction}

-- Lists that begin with parts of one length are equal only part by part.
append_split :
    (xs ys us vs : List ℕ) → length xs ≡ length ys → xs ++ us ≡ ys ++ vs → (xs ≡ ys) × (us ≡ vs)
append_split [] [] us vs l h = (refl, h)
append_split [] (y ∷ ys) us vs l h = absurd (omega arith)
append_split (x ∷ xs) [] us vs l h = absurd (omega arith)
append_split (x ∷ xs) (y ∷ ys) us vs l h =
    let (e, f) = append_split xs ys us vs (omega arith) (ground arith) in (ground arith, f)

pub length-be_bytes : (w n : ℕ) → length (be_bytes w n) ≡ w
unfolding be_bytes
length-be_bytes zero n = refl
length-be_bytes (suc w) n =
    omega (arith, length-append (be_bytes w (n / 256)) (n % 256 ∷ []), length-be_bytes w (n / 256))

-- A number that fits the width is known by its bytes.
pub be_bytes_injective :
    (w m n : ℕ) → m < 256 ^ w → n < 256 ^ w → be_bytes w m ≡ be_bytes w n → m ≡ n
unfolding be_bytes
be_bytes_injective zero m n hm hn h = omega arith
be_bytes_injective (suc w) m n hm hn h =
    let (high, low) =
      append_split (be_bytes w (m / 256)) (be_bytes w (n / 256)) (m % 256 ∷ []) (n % 256 ∷ [])
        (length-be_bytes w (m / 256) ∙ sym (length-be_bytes w (n / 256))) h in
    let e =
      be_bytes_injective w (m / 256) (n / 256) (omega (arith, pow-suc 256 w))
        (omega (arith, pow-suc 256 w)) high in
    let d : m % 256 ≡ n % 256 = cc low in omega (arith, e, d)

-- The first of two segments of bytes.
pub segment :
    (w m n : ℕ) (us vs : List ℕ)
    → m < 256 ^ w
    → n < 256 ^ w
    → be_bytes w m ++ us ≡ be_bytes w n ++ vs
    → (m ≡ n) × (us ≡ vs)
segment w m n us vs hm hn h =
    let (e, f) =
      append_split (be_bytes w m) (be_bytes w n) us vs
        (length-be_bytes w m ∙ sym (length-be_bytes w n)) h in
    (be_bytes_injective w m n hm hn e, f)

-- The signed fields fit their arrays and words.
pub record FitsBuffer (r : ResponseSendFundsOp Signature) (t : PendingTransaction) : Type 0 where
  pub src_lock : t.src_hashed_lock < 256 ^ 32
  pub dest_lock : r.dest_hashed_lock < 256 ^ 32
  pub payment : t.dest_payment < 256 ^ 16
  pub total : t.total_dest_payment < 256 ^ 16
  pub invoice : t.invoice_id < 256 ^ 32
