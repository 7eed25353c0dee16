-- ===== src/Crypto/Keys.antt =====
-- crypto.py: keys and signatures. The primitives of the package `cryptography` are parameters, and a
-- key object is the raw bytes that it was loaded from.
pub mod Laws
use dhava.Common.{ℕ, String, ◌<>◌, Bool, true, false}
use dhava.Backend.{Bytes}
use dhava.Result.{Result, ok, raise, ◌>>=◌, ◌>>◌}

-- HKDF-SHA256 without a salt, Ed25519 and X25519. Loading a key raises if the bytes are none, the
-- check of a signature raises if it is wrong, and HKDF raises if too many bytes are asked for.
pub record KeyLibrary : Type 0 where
  pub utf8 : String → Bytes
  pub hkdf : ℕ → Bytes → Bytes → Result Bytes
  pub ed_public : Bytes → Bytes
  pub load_ed_private : Bytes → Result Bytes
  pub load_ed_public : Bytes → Result Bytes
  pub ed_sign : Bytes → Bytes → Bytes
  pub ed_verify : Bytes → Bytes → Bytes → Result (Unit {0})
  pub load_x_private : Bytes → Result Bytes
  pub load_x_public : Bytes → Result Bytes
  pub x_exchange : Bytes → Bytes → Result Bytes

-- models.py
pub record NodeKeyMaterial : Type 0 where
  pub node_id : String
  pub signing_key : Bytes
  pub signing_public_key : Bytes
  pub encryption_key : Bytes
  pub store_key : Bytes
  pub outbox_key : Bytes
  pub audit_key : Bytes
  pub media_key : Bytes

-- What the random generators give: `Ed25519PrivateKey.generate` and `AESGCM.generate_key`.
pub record Drawing : Type 0 where
  pub ed_private : Bytes
  pub aes_key : Bytes

-- `AESGCM.generate_key(bit_length=256)`
unfoldable pub generate_key : Drawing → Bytes
generate_key draw = draw.aes_key

-- whether the `try` block came to its end
abbrev pub came_through : Result (Unit {0}) → Bool
came_through (ok _) = true
came_through (raise e) = false

module _ (lib : KeyLibrary) where
  unfoldable pub derive_key : Bytes → String → ℕ → Result Bytes
  derive_key master_key context size = lib.hkdf size (lib.utf8 context) master_key

  unfoldable pub generate_node_key_material : Drawing → String → Result NodeKeyMaterial
  unfolding generate_key derive_key
  generate_node_key_material draw node_id = do
    store_key ← derive_key (generate_key draw) ("store:" <> node_id) 32
    outbox_key ← derive_key (generate_key draw) ("outbox:" <> node_id) 32
    audit_key ← derive_key (generate_key draw) ("audit:" <> node_id) 32
    media_key ← derive_key (generate_key draw) ("media:" <> node_id) 32
    ok (record {
      node_id = node_id;
      signing_key = draw.ed_private;
      signing_public_key = lib.ed_public draw.ed_private;
      encryption_key = generate_key draw;
      store_key = store_key;
      outbox_key = outbox_key;
      audit_key = audit_key;
      media_key = media_key;
    })

  unfoldable pub sign : Bytes → Bytes → Result Bytes
  sign signing_key message = lib.load_ed_private signing_key >>= λ key. ok (lib.ed_sign key message)

  -- No exception leaves it.
  unfoldable pub verify : Bytes → Bytes → Bytes → Bool
  verify public_key message signature =
      came_through (lib.load_ed_public public_key >>= λ key. lib.ed_verify key signature message)

  unfoldable pub compute_ecdh_shared_key : Bytes → Bytes → Result Bytes
  unfolding derive_key
  compute_ecdh_shared_key local_private remote_public = do
    key ← lib.load_x_private local_private
    peer ← lib.load_x_public remote_public
    shared_secret ← lib.x_exchange key peer
    derive_key shared_secret "ddil-session-key" 32
