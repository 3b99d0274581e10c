-- ===== src/Middleware/Tests.antt =====
-- The properties of the middleware at concrete requests.
use yapi.Common.{◌≡◌, ◌↔◌, ◌⊎◌, false, [], ◌∷◌}
use yapi.Common.Text.{text}
use yapi.Common.Http.{header_get}
use yapi.Middleware.Cors.{cors}
use yapi.Middleware.Cors.Origin.{allow_origin, IsAllowed, cors-IsAllowed}

cors-IsAllowed_example :
    ((IsAllowed
          (text "http://a" ∷ [])
          (header_get (text "Origin") ((text "Origin", text "http://a" ∷ []) ∷ []))
        × (header_get allow_origin
              (cors
                (text "http://a" ∷ [])
                (text "GET")
                ((text "Origin", text "http://a" ∷ []) ∷ [])
                []).headers
            ≡ header_get (text "Origin") ((text "Origin", text "http://a" ∷ []) ∷ [])))
      ⊎ ((¬ IsAllowed
            (text "http://a" ∷ [])
            (header_get (text "Origin") ((text "Origin", text "http://a" ∷ []) ∷ [])))
          × ((cors
                (text "http://a" ∷ [])
                (text "GET")
                ((text "Origin", text "http://a" ∷ []) ∷ [])
                []).headers
              ≡ [])))
    × (((cors
            (text "http://a" ∷ [])
            (text "GET")
            ((text "Origin", text "http://a" ∷ []) ∷ [])
            []).proceeds
          ≡ false)
        ↔ (text "GET" ≡ text "OPTIONS"))
cors-IsAllowed_example =
    cors-IsAllowed (text "http://a" ∷ []) (text "GET") ((text "Origin", text "http://a" ∷ []) ∷ [])
      []
