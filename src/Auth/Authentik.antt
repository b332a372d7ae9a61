-- ===== src/Auth/Authentik.antt =====
-- auth-server/authentik.go: the client of the authentik users API.
pub mod Laws
use dev_box.Common.{
  ℕ, Bool, true, false, ◌&&◌, ◌||◌, not, List, [], ◌∷◌, ◌++◌, Option, none, some, Text, codes, ℤ,
  pos, negsuc, leb, ltb, leb_ℤ, Result, ok, err, ◌>>=◌, ◌==◌, if◌then◌else◌, number_eq, text_eq,
  take,
}
use dev_box.Strings.Trim.{trim_space, trim_right_byte}

-- The fields that the server decides by.
pub record User : Type 0 where
  pub username : Text
  pub is_active : Bool
  pub groups : List Text

-- `Results` is nil where the response has no list.
pub record Page : Type 0 where
  pub count : ℤ
  pub results : Option (List User)

pub record Request : Type 0 where
  pub url : Text
  pub authorization : Text
  pub accept : Text

pub record Response : Type 0 where
  pub status_code : ℕ
  pub status : Text
  pub body : Text

abbrev pub Query : Type 0
Query = List (Text × Text)

-- `net/url`'s URL, as far as it is taken apart.
pub record Url : Type 0 where
  pub scheme : Text
  pub authority : Text
  pub path : Text
  pub raw_query : Text

-- What is not the server's own: URLs, JSON, and the transport, which may fail with a cause.
-- `is_url` is the check that `http.NewRequest` makes.
pub record Backend : Type 0 where
  pub marshal_filter : Text → Text → Option Text
  pub parse_url : Text → Option Url
  pub print_url : Url → Text
  pub encode_query : Query → Text
  pub is_url : Text → Bool
  pub send : Request → Result Text Response
  pub decode_page : Text → Option Page

pub data LookupError : Type 0 where
  filter_not_encoded request_not_built page_not_decoded : LookupError
  request_failed : Text → LookupError
  status_failed : Text → Text → LookupError

pub record AuthentikConfig : Type 0 where
  pub base_url : Text
  pub key_attribute : Text
  pub read_token : Text

unfoldable pub default_key_attribute : Text
unfolding codes
default_key_attribute = codes "sshPublicKey"

-- At most 512 bytes of the body are shown, and no URL.
abbrev pub status_error : Response → LookupError
status_error resp = status_failed resp.status (trim_space (take 512 resp.body))

abbrev orelse_nil : Option (List User) → List User
orelse_nil none = []
orelse_nil (some users) = users

module _ (backend : Backend) (cfg : AuthentikConfig) where
  abbrev base_or_empty : Option Url → Url
  base_or_empty (some base) = base
  base_or_empty none = record { scheme = []; authority = []; path = []; raw_query = [] }

  unfoldable pub users_url : Query → Text
  users_url values =
      let base = base_or_empty (backend.parse_url (trim_right_byte b'/' cfg.base_url)) in
      backend.print_url (record base {
        scheme = if base.scheme == [] then codes "https" else base.scheme;
        path = trim_right_byte b'/' base.path ++ codes "/api/v3/core/users/";
        raw_query = backend.encode_query values;
      })

  abbrev request_to : Text → Request
  request_to url = record {
    url = url;
    authorization = codes "Bearer " ++ cfg.read_token;
    accept = codes "application/json";
  }

  read_page : Response → Result LookupError (ℤ × List User)
  read_page resp =
      if ltb resp.status_code 200 || ltb 299 resp.status_code
      then err (status_error resp)
      else elim (backend.decode_page resp.body) [
        | none ↦ err page_not_decoded
        | some page ↦ ok (page.count, orelse_nil page.results)
      ]

  unfoldable pub list_users : Query → Result LookupError (ℤ × List User)
  unfolding read_page users_url
  list_users values =
      let url = users_url values in
      if backend.is_url url
      then elim (backend.send (request_to url)) [
        | err cause ↦ err (request_failed cause)
        | ok resp ↦ read_page resp
      ]
      else err request_not_built

  abbrev pub key_attribute : Text
  key_attribute = if cfg.key_attribute == [] then default_key_attribute else cfg.key_attribute

  -- `page.Pagination.Count != 1 || len(page.Results) != 1`
  unique : ℤ × List User → Option User
  unique (pos n, user ∷ []) = if n == 1 then some user else none
  unique (_, _) = none

  unfoldable pub lookup_user : Text → Result LookupError (Option User)
  unfolding unique
  lookup_user public_key = elim (backend.marshal_filter key_attribute public_key) [
    | none ↦ err filter_not_encoded
    | some filter ↦ do page ← list_users ((codes "attributes", filter) ∷ []); ok (unique page)
  ]

  unfoldable pub user_in_group : Text → Text → Result LookupError Bool
  user_in_group username group = do
    page ← list_users ((codes "username", username) ∷ (codes "groups_by_name", group) ∷ [])
    ok (not (leb_ℤ page.0 (pos 0)))
