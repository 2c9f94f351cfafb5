-- ===== src/Text/Search/Found.antt =====
-- A search finds the documents that have the terms of the query.
use semadb.Base.{Bool, List, Option, [], false, none, some, true, ℕ, ◌&&◌, ◌||◌, ◌∷◌}
use semadb.Base.Result.{Result}
use semadb.Conversion.{Bytes}
use semadb.Diskstore.Order.{bytes_key}
use semadb.Inverted.Index.{Bitmaps}
use semadb.Shard.ItemCache.{ItemCache}
use semadb.Text.{DocCacheItem, DocCodec}
use semadb.Text.Kept.{has_in}

-- whether a document has all the terms, or one of them
unfoldable pub has_all : List Bytes → Result DocCacheItem → Bool
has_all [] d = true
has_all (t ∷ terms) d = has_in t d && has_all terms d

unfoldable pub has_any : List Bytes → Result DocCacheItem → Bool
has_any [] d = false
has_any (t ∷ terms) d = has_in t d || has_any terms d

module _ {S : Type 0} (bitmaps : Bitmaps S) (size_in_bytes : S → ℕ) (codec : DocCodec) where
  abbrev in_filter : Option S → ℕ → Bool
  in_filter none j = true
  in_filter (some filter) j = bitmaps.contains filter j
