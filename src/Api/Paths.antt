-- ===== src/Api/Paths.antt =====
-- The paths of the rows of the collections.
use anthonyzng_web.Base.{◌≡◌, [], ◌∷◌, ◌++◌}
use anthonyzng_web.Base.Text.{Text, units}
use anthonyzng_web.Collections.{collection_of}
use anthonyzng_web.Collections.Types.{CollectionId}
use anthonyzng_web.Api.{delete_item, list_path}

append-cancel : (p : Text) {s t : Text} → p ++ s ≡ p ++ t → s ≡ t
append-cancel [] h = h
append-cancel (c ∷ p) h = append-cancel p (cc h)

-- Where the encoding keeps texts apart, the deletions of two rows of one collection have two
-- paths.
pub content_path-injective :
    (encode : Text → Text)
    → ((s t : Text) → encode s ≡ encode t → s ≡ t)
    → (id : CollectionId) (slug other : Text)
    → (delete_item encode (collection_of id) slug).path
      ≡ (delete_item encode (collection_of id) other).path
    → slug ≡ other
content_path-injective encode apart id slug other h =
    apart slug other (append-cancel (list_path (collection_of id) ++ units "/") h)
