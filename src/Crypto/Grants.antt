-- ===== src/Crypto/Grants.antt =====
-- packages/crypto/src/grants.ts: grants, their signed bytes and their strict parser. A key's
-- hexadecimal text stands for the key, which is its bytes here.
pub mod Verifying
pub mod Parsing
pub mod Narrowing
pub mod Verified
pub mod Purposes
pub mod Joined
pub mod Bytes
pub mod Answers
use tnp.Prelude.{
  ℕ, ◌==◌, Bool, true, false, not, ◌&&◌, ◌||◌, ltb, leb, if◌then◌else◌, Option, none, some, List,
  [], ◌∷◌, ◌++◌, map, Result, ok, err, ◌>>=◌, ◌>>◌, require, whole, default_to,
}
use tnp.Prelude.Texts.{code_points, same_text}
use tnp.Crypto.Encoding.{
  EncodingError, encoding_error, KeyInput, encoded, parse_public_key, public_key_length, Field,
  text, array, absent, undefined, uint_field, is_absent, new_writer, write_string, fixed, uint,
  finish,
}
use tnp.Crypto.Scope.{is_valid_scope}

-- `GrantPurpose`
pub data Purpose : Type 0 where
  delegate service_node domain_records relay client : Purpose

unfoldable pub purpose_text : Purpose → List ℕ
unfolding code_points
purpose_text delegate = code_points "delegate"
purpose_text service_node = code_points "service-node"
purpose_text domain_records = code_points "domain-records"
purpose_text relay = code_points "relay"
purpose_text client = code_points "client"

abbrev pub all_purposes : List Purpose
all_purposes = delegate ∷ service_node ∷ domain_records ∷ relay ∷ client ∷ []

-- `SCOPED_PURPOSES.has(purpose)`
abbrev pub is_scoped : Purpose → Bool
is_scoped delegate = false
is_scoped service_node = true
is_scoped domain_records = true
is_scoped relay = true
is_scoped client = false

abbrev pub index_of : Purpose → ℕ
index_of delegate = 0
index_of service_node = 1
index_of domain_records = 2
index_of relay = 3
index_of client = 4

-- `purposes.includes(purpose)`
unfoldable pub includes : List Purpose → Purpose → Bool
includes [] p = false
includes (q ∷ ps) p = index_of q == index_of p || includes ps p

unfoldable pub any_scoped : List Purpose → Bool
any_scoped [] = false
any_scoped (p ∷ ps) = is_scoped p || any_scoped ps

-- The wire form, or what was sent in its place: an object's fields, and whether it has a key that is
-- not in `GRANT_FIELDS`.
pub record Grant : Type 0 where
  pub issuer : Field
  pub subject : Field
  pub purposes : Field
  pub not_before : Field
  pub not_after : Field
  pub serial : Field
  pub scope : Field
  pub signature : Field
  pub has_more : Bool

pub data GrantInput : Type 0 where
  object : Grant → GrantInput
  not_object : GrantInput

pub record ParsedGrant : Type 0 where
  pub issuer : List ℕ
  pub subject : List ℕ
  pub purposes : List Purpose
  pub not_before : ℕ
  pub not_after : ℕ
  pub serial : ℕ
  pub scope : Option (List ℕ)

-- The purpose whose text this is.
unfoldable pub purpose_of : List Purpose → List ℕ → Option Purpose
purpose_of [] s = none
purpose_of (p ∷ ps) s =
    let later = purpose_of ps s in if same_text (purpose_text p) s then some p else later

-- The loop over `g.purposes`, after the purposes that were read.
unfoldable pub parse_purposes :
    List Purpose → List (Option (List ℕ)) → Result EncodingError (List Purpose)
parse_purposes read [] = ok read
parse_purposes read (none ∷ rest) = err (encoding_error "grant has an unknown purpose")
parse_purposes read (some s ∷ rest) = elim (purpose_of all_purposes s) [
  | none ↦ err (encoding_error "grant has an unknown purpose")
  | some p ↦ do
    require (not (includes read p)) (encoding_error "grant lists a purpose twice")
    parse_purposes (read ++ (p ∷ [])) rest
]

unfoldable pub purposes_field : Field → Result EncodingError (List Purpose)
purposes_field (array (s ∷ rest)) = parse_purposes [] (s ∷ rest)
purposes_field f = err (encoding_error "grant has no purposes")

-- A scope that is absent: only a key that cannot delegate has to name what it speaks for.
unfoldable pub unscoped : List Purpose → Result EncodingError (Option (List ℕ))
unscoped ps = do
  require (includes ps delegate || not (any_scoped ps))
      (encoding_error "a non-delegating grant with a scoped purpose requires a scope")
  ok none

unfoldable pub scope_field : List Purpose → Field → Result EncodingError (Option (List ℕ))
scope_field ps absent = unscoped ps
scope_field ps undefined = unscoped ps
scope_field ps (text s) = do
  require (is_valid_scope s) (encoding_error "scope is not a canonical name")
  ok (some s)
scope_field ps f = err (encoding_error "scope is not a canonical name")

-- `parsePublicKey` of a field that has to be a string.
unfoldable pub key_field : Field → Result EncodingError (List ℕ)
key_field (text s) = parse_public_key (encoded s)
key_field f = err (encoding_error "must be a base64 string")

abbrev pub is_text : Field → Bool
is_text (text s) = true
is_text f = false

unfoldable pub parse_unsigned : GrantInput → Bool → Result EncodingError ParsedGrant
parse_unsigned not_object allow_signature = err (encoding_error "grant must be an object")
parse_unsigned (object g) allow_signature = do
  require (not g.has_more && (is_absent g.signature || allow_signature))
      (encoding_error "grant has an unexpected field")
  require (is_text g.issuer && is_text g.subject)
      (encoding_error "issuer and subject must be base64 strings")
  issuer ← key_field g.issuer
  subject ← key_field g.subject
  require (not (same_text issuer subject)) (encoding_error "grant is self-issued")
  purposes ← purposes_field g.purposes
  not_before ← uint_field g.not_before
  not_after ← uint_field g.not_after
  serial ← uint_field g.serial
  require (ltb not_before not_after) (encoding_error "validity window is empty or inverted")
  scope ← scope_field purposes g.scope
  ok (record {
    issuer = issuer;
    subject = subject;
    purposes = purposes;
    not_before = not_before;
    not_after = not_after;
    serial = serial;
    scope = scope;
  })

-- The order of strings, by their units.
unfoldable pub text_before : List ℕ → List ℕ → Bool
text_before [] t = true
text_before (a ∷ s) [] = false
text_before (a ∷ s) (b ∷ t) = ltb a b || (a == b && text_before s t)

unfoldable pub insert_purpose : Purpose → List Purpose → List Purpose
insert_purpose p [] = p ∷ []
insert_purpose p (q ∷ qs) =
    let later = insert_purpose p qs in
    if text_before (purpose_text p) (purpose_text q) then p ∷ q ∷ qs else q ∷ later

-- `[...purposes].sort()`
unfoldable pub sort : List Purpose → List Purpose
sort [] = []
sort (p ∷ ps) = insert_purpose p (sort ps)

-- `.join(',')`
unfoldable pub join_purposes : List Purpose → List ℕ
join_purposes [] = []
join_purposes (p ∷ []) = purpose_text p
join_purposes (p ∷ q ∷ ps) = purpose_text p ++ (0x2c ∷ join_purposes (q ∷ ps))

abbrev pub grant_context : List ℕ
grant_context = code_points "tnp-grant-v2"

unfoldable pub encode_parsed : ParsedGrant → Result EncodingError (List ℕ)
encode_parsed g = do
  let named = write_string new_writer grant_context
  with_issuer ← fixed named g.issuer public_key_length
  with_subject ← fixed with_issuer g.subject public_key_length
  let with_purposes = write_string with_subject (join_purposes (sort g.purposes))
  from ← uint with_purposes (whole g.not_before)
  until ← uint from (whole g.not_after)
  numbered ← uint until (whole g.serial)
  ok (finish (write_string numbered (default_to [] g.scope)))

unfoldable pub canonical_grant_bytes : GrantInput → Result EncodingError (List ℕ)
canonical_grant_bytes g = do parsed ← parse_unsigned g false; encode_parsed parsed
