-- ===== src/Common/Http/Laws.antt =====
-- Reading a header after it is written.
use yapi.Common.{◌≡◌, Bool, [], ◌∷◌, arith, if◌then◌else◌}
use yapi.Common.Text.{Text, text_eq}
use yapi.Common.Dict.{lookup-insert, lookup-erase}
use yapi.Common.Http.{Header, canonical_key, header_get, header_set, header_del}

-- Two names for one header.
abbrev pub same_header : Text → Text → Bool
same_header k j = text_eq (canonical_key k) (canonical_key j)

pub header_get-header_set :
    (k j v : Text) (h : Header)
    → header_get j (header_set k v h) ≡ (if same_header k j then v else header_get j h)
unfolding header_get header_set
header_get-header_set k j v h =
    ground (arith, lookup-insert (canonical_key k) (canonical_key j) (v ∷ []) h)

pub header_get-header_del :
    (k j : Text) (h : Header)
    → header_get j (header_del k h) ≡ (if same_header k j then [] else header_get j h)
unfolding header_get header_del
header_get-header_del k j h = ground (arith, lookup-erase (canonical_key k) (canonical_key j) h)
