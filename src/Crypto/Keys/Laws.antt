-- ===== src/Crypto/Keys/Laws.antt =====
-- crypto.py: a bundle of keys works with the rest of the layer, and two nodes that exchange public
-- keys can read each other.
use dhava.Common.{ℕ, ◌≤◌, String, ◌<>◌, ◌≡◌, refl, ap, Bool, true, arith, length, ◌==◌, if_true}
use dhava.Backend.{Bytes}
use dhava.Result.{ok}
use dhava.Crypto
use dhava.Crypto.{AesGcm, Compressor, CompressionAlgorithm, CryptoLayer, pack, unpack}
use dhava.Crypto.RoundTrip.{IsCipher, AreCompressors, node, unpack-pack}
use dhava.Crypto.Keys.{
  KeyLibrary, NodeKeyMaterial, Drawing, derive_key, generate_key, generate_node_key_material, sign,
  verify, compute_ecdh_shared_key, came_through,
}

-- What the package documents: HKDF gives as many bytes as were asked for, up to 255 blocks, and a
-- signature of a private key passes the check with its public key.
pub record IsKeyLibrary (lib : KeyLibrary) : Type 0 where
  pub hkdf_gives :
      (n : ℕ) (info master : Bytes)
      → n ≤ 8_160
      → (key : Bytes) × (lib.hkdf n info master ≡ ok key) × (length key ≡ n)
  pub verify-sign :
      (key message : Bytes)
      → lib.ed_verify (lib.ed_public key) (lib.ed_sign key message) message ≡ ok tt

-- An Ed25519 key that was generated loads again, and so does its public key.
pub record Loads (lib : KeyLibrary) (draw : Drawing) : Type 0 where
  pub private : lib.load_ed_private draw.ed_private ≡ ok draw.ed_private
  pub public :
      lib.load_ed_public (lib.ed_public draw.ed_private) ≡ ok (lib.ed_public draw.ed_private)
  pub full : length draw.aes_key ≡ 32

-- The constructor of a layer takes the key.
abbrev pub Accepts : Bytes → Type 0
Accepts key =
    (t : CompressionAlgorithm)
    → Crypto.new key t ≡ ok (record { encryption_key = key; compression = t })

pub new-Accepts : (key : Bytes) → length key ≡ 32 → Accepts key
unfolding Crypto.new
new-Accepts key full t = if_true (length key == 32) _ _ (ground (arith, full))

-- What a bundle promises.
pub record IsBundle (lib : KeyLibrary) (m : NodeKeyMaterial) : Type 0 where
  pub encryption : Accepts m.encryption_key
  pub store : Accepts m.store_key
  pub outbox : Accepts m.outbox_key
  pub audit : Accepts m.audit_key
  pub media : Accepts m.media_key
  pub signs :
      (message : Bytes)
      → (signature : Bytes) × (sign lib m.signing_key message ≡ ok signature)
        × (verify lib m.signing_public_key message signature ≡ true)

-- Two private keys and their public keys, which load and give one secret from both sides.
pub record Agree (lib : KeyLibrary) (x_public : Bytes → Bytes) (mine theirs secret : Bytes)
    : Type 0 where
  pub mine_loads : lib.load_x_private mine ≡ ok mine
  pub theirs_loads : lib.load_x_private theirs ≡ ok theirs
  pub my_public : lib.load_x_public (x_public mine) ≡ ok (x_public mine)
  pub their_public : lib.load_x_public (x_public theirs) ≡ ok (x_public theirs)
  pub from_mine : lib.x_exchange mine (x_public theirs) ≡ ok secret
  pub from_theirs : lib.x_exchange theirs (x_public mine) ≡ ok secret

module _ (lib : KeyLibrary) (law : IsKeyLibrary lib) where
  derive_key-Accepts :
      (master : Bytes) (context : String)
      → (key : Bytes) × (derive_key lib master context 32 ≡ ok key) × Accepts key
  unfolding derive_key
  derive_key-Accepts master context =
      let (key, eq, full) = law.hkdf_gives 32 (lib.utf8 context) master (omega arith) in
      (key, eq, new-Accepts key full)

  signs_well :
      (draw : Drawing) (message : Bytes)
      → Loads lib draw
      → (signature : Bytes) × (sign lib draw.ed_private message ≡ ok signature)
        × (verify lib (lib.ed_public draw.ed_private) message signature ≡ true)
  unfolding sign verify
  signs_well draw message loads =
      rw (loads.private, loads.public)
        (
          lib.ed_sign draw.ed_private message,
          refl,
          ap came_through (law.verify-sign draw.ed_private message),
        )

  -- With a library that does what it documents, and a drawn signing key that loads again, as does
  -- its public key, and a drawn symmetric key of 32 bytes, the generation of a bundle returns. Each
  -- of its five symmetric keys is accepted by the constructor of the crypto layer, and what its
  -- signing key signs passes the check with its public key.
  pub generate_node_key_material-IsBundle :
      (draw : Drawing) (node_id : String)
      → Loads lib draw
      → (m : NodeKeyMaterial) × (generate_node_key_material lib draw node_id ≡ ok m)
        × (m.node_id ≡ node_id)
        × IsBundle lib m
  unfolding generate_node_key_material generate_key
  generate_node_key_material-IsBundle draw node_id loads =
      let (store, s, s_ok) = derive_key-Accepts draw.aes_key ("store:" <> node_id) in
      let (outbox, o, o_ok) = derive_key-Accepts draw.aes_key ("outbox:" <> node_id) in
      let (audit, a, a_ok) = derive_key-Accepts draw.aes_key ("audit:" <> node_id) in
      let (media, m, m_ok) = derive_key-Accepts draw.aes_key ("media:" <> node_id) in
      rw (s, o, a, m)
        (
          record {
            node_id = node_id;
            signing_key = draw.ed_private;
            signing_public_key = lib.ed_public draw.ed_private;
            encryption_key = draw.aes_key;
            store_key = store;
            outbox_key = outbox;
            audit_key = audit;
            media_key = media;
          },
          refl,
          refl,
          record {
            encryption = new-Accepts draw.aes_key loads.full;
            store = s_ok;
            outbox = o_ok;
            audit = a_ok;
            media = m_ok;
            signs = λ message. signs_well draw message loads;
          },
        )

  -- Two nodes have private keys that load, know each other's public key, and the exchange of the
  -- library gives one secret from both sides. Then they come to the same session key. Each of them
  -- builds a layer with it, for the same algorithm, and what the one packs with a nonce of 12 bytes
  -- the other unpacks to the payload, if it has the zstd library or the sender lacks it too. HKDF,
  -- the cipher and the compressors do what they document.
  pub compute_ecdh_shared_key-pack :
      (a : AesGcm) (g z : Compressor)
      → IsCipher a
      → AreCompressors g z
      → (x_public : Bytes → Bytes) (mine theirs secret : Bytes)
      → Agree lib x_public mine theirs secret
      → (sender receiver : Bool) (t : CompressionAlgorithm) (nonce payload : Bytes)
      → (sender ≡ true → receiver ≡ true)
      → length nonce ≡ 12
      → (key : Bytes) × (compute_ecdh_shared_key lib mine (x_public theirs) ≡ ok key)
        × (compute_ecdh_shared_key lib theirs (x_public mine) ≡ ok key)
        × ((c : CryptoLayer) × (Crypto.new key t ≡ ok c)
            × (unpack (node a g z receiver) c (pack (node a g z sender) c nonce payload)
                ≡ ok payload))
  unfolding compute_ecdh_shared_key
  compute_ecdh_shared_key-pack a g z ia cs x_public mine theirs secret k sender receiver t nonce
        payload h n =
      let (key, eq, accepts) = derive_key-Accepts secret "ddil-session-key" in
      let c : CryptoLayer = record { encryption_key = key; compression = t } in
      (
        key,
        rw (k.mine_loads, k.their_public, k.from_mine) eq,
        rw (k.theirs_loads, k.my_public, k.from_theirs) eq,
        (c, accepts t, unpack-pack a g z cs ia sender receiver c nonce payload h n),
      )
