-- ===== src/ServerImpl/Files.antt =====
-- What a web page gets by HTTP.
use sacs.Prelude.{Text, [], codes, false, get_elem?, none, some, ℕ, ◌==◌, ◌∷◌, ◌≡◌, ◌≢◌, ◌⊎◌}
use sacs.ServerImpl.Requests.{Resources, Response, get_resource}

-- The table has this file, with these contents.
abbrev pub HasFile : Text → Text → Resources → Type 0
HasFile name body resources = (i : ℕ) × (get_elem? resources i ≡ some (name, body))

-- A target that asks for a file by its name: with a leading `/`, without one, or for the front page.
pub data Asks : Text → Text → Type 0 where
  by_path : (name : Text) → name ≢ [] → Asks (b'/' ∷ name) name
  by_name : (c : ℕ) (rest : Text) → (c == b'/') ≡ false → Asks (c ∷ rest) (c ∷ rest)
  front : Asks (b'/' ∷ []) (codes "index.html")

module _ (find_mime : Text → Text) where
  -- The response is that of a file of the table that the target asks for.
  pub record Serves (resources : Resources) (target : Text) (r : Response) : Type 0 where
    pub name : Text
    pub asked : Asks target name
    pub held : HasFile name r.body resources
    pub status : r.status ≡ 200
    pub content_type : r.content_type ≡ some (find_mime name)

  abbrev pub plain_response : ℕ → Response
  plain_response status = record { status = status; body = []; content_type = none }

  -- A file of the table, or a file that has no contents there.
  abbrev pub Answers : Resources → Text → Response → Type 0
  Answers resources target r =
      Serves resources target r
      ⊎ ((name : Text) × Asks target name
          × (get_resource name resources ≡ [])
          × (r ≡ plain_response 404))
