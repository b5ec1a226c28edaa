-- ===== src/Crypto/Signing.antt =====
-- What a signature of crypto.py covers, and what its check covers.
use cloudmer_cloud_storage.Prelude.{
  ◌≡◌, ◌≢◌, refl, ap, ◌∙◌, true, false, none, Bytes, ok, str_eq-apart,
}
use cloudmer_cloud_storage.Blockchain.Tx.{Tx}
use cloudmer_cloud_storage.Crypto.{
  Library, KeyPair, sign, verify, sign_transaction, verify_transaction_signature,
}

module _ (lib : Library) (seed : Bytes) (pair : KeyPair lib) where
  -- A signed transaction is checked against what it holds besides the signature and the signer.
  verify_transaction_signature-signed :
      (tx : Tx)
      → ((bytes : Bytes) → sign lib seed pair bytes ≢ "")
      → verify_transaction_signature lib pair (sign_transaction lib seed pair tx)
        ≡ verify lib pair
            (lib.dumps_tx (record tx { signature = none; signer = none }))
            (sign lib seed pair (lib.dumps_tx (record tx { signature = none })))
  verify_transaction_signature-signed tx filled =
      let payload = lib.dumps_tx (record tx { signature = none }) in
      rw (str_eq-apart (sign lib seed pair payload) "" (filled payload)) refl

  -- A transaction without a signer is accepted once it is signed, and refused once it is signed
  -- again: the second signature covers the signer, and the check leaves it out.
  pub sign_transaction_twice :
      (tx : Tx)
      → tx.signer ≡ none
      → ((bytes : Bytes) → sign lib seed pair bytes ≢ "")
      → ((bytes : Bytes) → verify lib pair bytes (sign lib seed pair bytes) ≡ ok true)
      → ((bytes other : Bytes)
          → bytes ≢ other
          → verify lib pair other (sign lib seed pair bytes) ≡ ok false)
      → ((a b : Tx) → lib.dumps_tx a ≡ lib.dumps_tx b → a.signer ≡ b.signer)
      → let once = sign_transaction lib seed pair tx in
        (verify_transaction_signature lib pair once ≡ ok true)
        × (verify_transaction_signature lib pair (sign_transaction lib seed pair once) ≡ ok false)
  sign_transaction_twice tx unsigned filled sound strict dumps =
      let once = sign_transaction lib seed pair tx in
      let bare = record tx { signature = none; signer = none } in
      let same : record tx { signature = none } ≡ bare =
        ap (λ s. record tx { signature = none; signer = s }) unsigned in
      (
        verify_transaction_signature-signed tx filled
            ∙ ap (λ t. verify lib pair (lib.dumps_tx bare) (sign lib seed pair (lib.dumps_tx t)))
                same
            ∙ sound (lib.dumps_tx bare),
        verify_transaction_signature-signed once filled
            ∙ strict (lib.dumps_tx (record once { signature = none }))
                (lib.dumps_tx (record once { signature = none; signer = none }))
                (λ e.
                  (let signers =
                      dumps (record once { signature = none })
                        (record once { signature = none; signer = none }) e in
                    cc)),
      )
