-- ===== src/Models/Media.antt =====
-- models.py: the handle of a media item that stays on the disk of its node.
use dhava.Common.{ℕ, String, Option, some}

pub record MediaReference : Type 0 where
  pub media_id : String
  pub media_hash : String
  pub media_size_bytes : ℕ
  pub media_type : String
  pub thumbnail_hash : Option String
  pub thumbnail_size_bytes : ℕ
  pub local_path : String

-- Every key but the hash of the thumbnail has a value.
pub record MediaReferenceDict : Type 0 where
  pub media_id : Option String
  pub media_hash : Option String
  pub media_size_bytes : Option ℕ
  pub media_type : Option String
  pub thumbnail_hash : Option String
  pub thumbnail_size_bytes : Option ℕ
  pub local_path : Option String

unfoldable pub media_to_dict : MediaReference → MediaReferenceDict
media_to_dict x = record {
  media_id = some x.media_id;
  media_hash = some x.media_hash;
  media_size_bytes = some x.media_size_bytes;
  media_type = some x.media_type;
  thumbnail_hash = x.thumbnail_hash;
  thumbnail_size_bytes = some x.thumbnail_size_bytes;
  local_path = some x.local_path;
}
