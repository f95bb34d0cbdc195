-- ===== src/HotWallet/Cipher/Stream.antt =====
-- The stream cipher undoes itself.
use crypto_arc_v.Prelude.{
  ℕ, zero, suc, ◌+◌, ◌≤◌, ◌<◌, ◌≡◌, ◌⊎◌, inl, inr, refl, sym, ap, Bool, true, ◌&&◌, [], ◌∷◌, ◌++◌,
  ltb, ◌==◌, arith, length, take, drop, All, length-append, length-take, length-drop,
  take-append-drop-length, take-append, drop-append, take-nil,
}
use Prim.Native.Nat.{bit_xor}
use mathlib.Core.Path.{ap₂, ◌≡⟨◌⟩◌, ◌∎}
use crypto_arc_v.HotWallet.Cipher.{
  Bytes, IsBytes, Crypto, IsCrypto, to_bytes4, xor_chunk, xor_from, xor_stream,
}

-- Whether a test holds at every byte value under a bound, counted down from it.
holds_under : (test : ℕ → Bool) → ℕ → Bool
holds_under test zero = true
holds_under test (suc top) = holds_under test top && test top

holds_under_lem :
    (test : ℕ → Bool) (top byte : ℕ) → byte < top → holds_under test top ≡ true → test byte ≡ true
unfolding holds_under
holds_under_lem test zero byte below h = absurd (omega arith)
holds_under_lem test (suc top) byte below h = ground (arith, holds_under_lem test top byte)

xor_table : holds_under (λ k. holds_under (λ x. bit_xor (bit_xor x k) k == x) 256) 256 ≡ true
unfolding holds_under
xor_table = refl

bit_xor_twice : (x k : ℕ) → x < 256 → k < 256 → bit_xor (bit_xor x k) k ≡ x
bit_xor_twice x k hx hk =
    let row = holds_under_lem _ 256 k hk xor_table in
    let cell = holds_under_lem _ 256 x hx row in ground arith

byte_table : holds_under (λ k. holds_under (λ x. ltb (bit_xor x k) 256) 256) 256 ≡ true
unfolding holds_under
byte_table = refl

bit_xor-lt : (x k : ℕ) → x < 256 → k < 256 → bit_xor x k < 256
bit_xor-lt x k hx hk =
    let row = holds_under_lem _ 256 k hk byte_table in
    let cell = holds_under_lem _ 256 x hx row in ground arith

length-xor_chunk : (xs ks : Bytes) → length xs ≤ length ks → length (xor_chunk xs ks) ≡ length xs
unfolding xor_chunk
length-xor_chunk [] ks h = refl
length-xor_chunk (x ∷ xs) [] h = absurd (omega arith)
length-xor_chunk (x ∷ xs) (k ∷ ks) h = ap suc (length-xor_chunk xs ks (omega arith))

xor_chunk_twice :
    (xs ks : Bytes)
    → length xs ≤ length ks
    → IsBytes xs
    → IsBytes ks
    → xor_chunk (xor_chunk xs ks) ks ≡ xs
unfolding xor_chunk
xor_chunk_twice [] ks h p q = refl
xor_chunk_twice (x ∷ xs) [] h p q = absurd (omega arith)
xor_chunk_twice (x ∷ xs) (k ∷ ks) h (p, ps) (q, qs) =
    cc (bit_xor_twice x k p q, xor_chunk_twice xs ks (omega arith) ps qs)

All-split : (P : ℕ → Type 0) (xs ys : Bytes) → All P (xs ++ ys) → All P xs × All P ys
All-split P [] ys h = (tt, h)
All-split P (x ∷ xs) ys (p, h) = let (a, b) = All-split P xs ys h in ((p, a), b)

module _ (c : Crypto) (laws : IsCrypto c) (key nonce : Bytes) where
  open laws use {length-hmac, hmac-IsBytes}

  abbrev block : ℕ → Bytes
  block counter = c.hmac key (nonce ++ to_bytes4 counter)

  xor_from_nil : (fuel counter : ℕ) → xor_from c fuel key nonce counter [] ≡ []
  unfolding xor_from
  xor_from_nil zero counter = refl
  xor_from_nil (suc fuel) counter = refl

  abbrev chunk : ℕ → Bytes → Bytes
  chunk counter p = take (length (block counter)) p

  -- One round of the loop, also after the end.
  xor_from_round :
      (fuel counter : ℕ) (p : Bytes)
      → xor_from c (suc fuel) key nonce counter p
        ≡ xor_chunk (chunk counter p) (block counter)
          ++ xor_from c fuel key nonce (counter + 1) (drop (length (chunk counter p)) p)
  unfolding xor_from xor_chunk
  xor_from_round fuel counter [] =
      let n = length (block counter) in
      rw (take-nil {A = ℕ} n) (sym (xor_from_nil fuel (counter + 1)))
  xor_from_round fuel counter (b ∷ rest) = refl

  length-xor_from :
      (fuel counter : ℕ) (p : Bytes)
      → length p ≤ fuel
      → length (xor_from c fuel key nonce counter p) ≡ length p
  length-xor_from zero counter [] h = ap length (xor_from_nil zero counter)
  length-xor_from zero counter (b ∷ p) h = absurd (omega arith)
  length-xor_from (suc fuel) counter [] h = ap length (xor_from_nil (suc fuel) counter)
  length-xor_from (suc fuel) counter (b ∷ p) h =
      let k = block counter in
      let c' = chunk counter (b ∷ p) in
      let r = drop (length c') (b ∷ p) in
      let size = length-hmac key (nonce ++ to_bytes4 counter) in
      let taken = length-take (length k) (b ∷ p) in
      let left = length-drop (length c') (b ∷ p) in
      let first = length-xor_chunk c' k (omega arith) in
      let later = length-xor_from fuel (counter + 1) r (omega arith) in
      rw (xor_from_round fuel counter (b ∷ p))
        (omega (arith, length-append (xor_chunk c' k) (xor_from c fuel key nonce (counter + 1) r)))

  -- With rounds enough on both ways, the second pass gives the payload back.
  xor_from_twice :
      (fuel again counter : ℕ) (p : Bytes)
      → length p ≤ fuel
      → length p ≤ again
      → IsBytes p
      → xor_from c again key nonce counter (xor_from c fuel key nonce counter p) ≡ p
  xor_from_twice fuel again counter [] h k b =
      rw (xor_from_nil fuel counter) (xor_from_nil again counter)
  xor_from_twice zero again counter (x ∷ p) h k b = absurd (omega arith)
  xor_from_twice (suc fuel) zero counter (x ∷ p) h k b = absurd (omega arith)
  xor_from_twice (suc fuel) (suc again) counter (x ∷ p) h k b =
      let key_block = block counter in
      let first = chunk counter (x ∷ p) in
      let rest = drop (length first) (x ∷ p) in
      let (whole, small, last) = take-append-drop-length (length key_block) (x ∷ p) in
      let size = length-hmac key (nonce ++ to_bytes4 counter) in
      let taken = length-take (length key_block) (x ∷ p) in
      let left = length-drop (length first) (x ∷ p) in
      let bytes = All-split (λ y. y < 256) first rest (rw whole b) in
      let a = xor_chunk first key_block in
      let z = xor_from c fuel key nonce (counter + 1) rest in
      let length_a = length-xor_chunk first key_block small in
      let cut = take-append (length key_block) a z (ends a first rest length_a small last) in
      xor_from c (suc again) key nonce counter (xor_from c (suc fuel) key nonce counter (x ∷ p))
      ≡⟨ ap (xor_from c (suc again) key nonce counter) (xor_from_round fuel counter (x ∷ p)) ⟩
        xor_from c (suc again) key nonce counter (a ++ z)
      ≡⟨ xor_from_round again counter (a ++ z) ⟩
        xor_chunk (chunk counter (a ++ z)) key_block
        ++ xor_from c again key nonce (counter + 1)
            (drop (length (chunk counter (a ++ z))) (a ++ z))
      ≡⟨ rw cut (rw (drop-append a z)) ⟩
        xor_chunk a key_block ++ xor_from c again key nonce (counter + 1) z
      ≡⟨ ap₂ ◌++◌ (xor_chunk_twice first key_block small bytes.0 (hmac-IsBytes _ _))
          (xor_from_twice fuel again (counter + 1) rest (omega arith) (omega arith) bytes.1) ⟩
        first ++ rest
      ≡⟨ whole ⟩ x ∷ p ∎
    where
      ends :
          (a first rest : Bytes)
          → length a ≡ length first
          → length first ≤ length (block counter)
          → (length first ≡ length (block counter)) ⊎ (rest ≡ [])
          → (length a ≡ length (block counter))
            ⊎ ((length a ≤ length (block counter))
                × (xor_from c fuel key nonce (counter + 1) rest ≡ []))
      ends a first rest la small (inl e) = inl (omega arith)
      ends a first rest la small (inr e) = inr (omega arith, rw e (xor_from_nil fuel (counter + 1)))

  pub length-xor_stream : (p : Bytes) → length (xor_stream c p key nonce) ≡ length p
  unfolding xor_stream
  length-xor_stream p = length-xor_from (length p) 0 p (omega arith)

  -- The stream cipher returns as many bytes as it is given, so its loop reaches the end of the
  -- payload, and a second pass with the same key and nonce gives the payload back.
  pub xor_stream_twice :
      (p : Bytes)
      → IsBytes p
      → (length (xor_stream c p key nonce) ≡ length p)
        × (xor_stream c (xor_stream c p key nonce) key nonce ≡ p)
  unfolding xor_stream
  xor_stream_twice p b =
      let out = xor_from c (length p) key nonce 0 p in
      let same = length-xor_from (length p) 0 p (omega arith) in
      (same, xor_from_twice (length p) (length out) 0 p (omega arith) (omega arith) b)
