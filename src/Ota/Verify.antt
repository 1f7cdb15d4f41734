-- ===== src/Ota/Verify.antt =====
-- `_verify`, `version_tuple` and `_load_public_key` of src/ota/agent.py. The signature's check, the
-- parsing of JSON and of a number, and the contents of the files are arguments.
use wqm.Prelude.{
  ℕ, ltb, ◌==◌, ◌≡◌, Bool, true, false, not, ◌&&◌, ◌||◌, Option, none, some, List, [], ◌∷◌, String,
  if◌then◌else◌,
}
use wqm.Prelude.Texts.{str_eq}

-- The manifest, with its hash in lower case. A field that it may lack is an option.
pub record Manifest : Type 0 where
  pub product : Option String
  pub version : Option String
  pub sha256 : String
  pub min_from_version : Option String
  pub requires_deps : Bool

-- The target that the cloud assigns. A manifest that is no text or is empty is none, as is a signature
-- that is not base64.
pub record Target : Type 0 where
  pub version : String
  pub has_url : Bool
  pub size_bytes : ℕ
  pub manifest : Option String
  pub signature : Option (List ℕ)

-- What the agent's other calls answer: the key files in their order, pycryptodome, `json.loads`, what
-- `int` makes of the parts of a version between the dots, the hash of the bundle, and the finding of
-- the check of its members.
pub record Tools : Type 0 where
  pub key_files : List (Option String)
  pub is_signed : String → List ℕ → String → Bool
  pub parse : String → Option Manifest
  pub numbers : String → List (Option ℕ)
  pub digest : String
  pub tar_error : Bool

pub data Verdict : Type 0 where
  verified : Manifest → Verdict
  refused : Verdict

unfoldable pub all_numbers : List (Option ℕ) → Option (List ℕ)
all_numbers [] = some []
all_numbers (none ∷ parts) = none
all_numbers (some n ∷ parts) = elim (all_numbers parts) [ none ↦ none | some ns ↦ some (n ∷ ns) ]

unfoldable pub version_tuple : Tools → String → Option (List ℕ)
version_tuple tools version = all_numbers (tools.numbers version)

-- `a < b` on tuples of numbers
unfoldable pub tuple_lt : List ℕ → List ℕ → Bool
tuple_lt [] [] = false
tuple_lt [] (n ∷ ns) = true
tuple_lt (m ∷ ms) [] = false
tuple_lt (m ∷ ms) (n ∷ ns) = ltb m n || (m == n && tuple_lt ms ns)

unfoldable pub is_older : Option (List ℕ) → Option (List ℕ) → Bool
is_older none required = true
is_older (some installed) none = true
is_older (some installed) (some required) = tuple_lt installed required

-- The first candidate that can be read and holds a key.
unfoldable pub load_public_key : List (Option String) → Option String
load_public_key [] = none
load_public_key (some key ∷ files) = some key
load_public_key (none ∷ files) = load_public_key files

abbrev pub is_text : Option String → String → Bool
is_text none s = false
is_text (some t) s = str_eq t s

-- An empty `minFromVersion` counts as none.
unfoldable pub from_fault : Tools → String → Option String → Bool
from_fault tools installed none = false
from_fault tools installed (some min_from) =
    not (str_eq min_from "")
    && is_older (version_tuple tools installed) (version_tuple tools min_from)

unfoldable pub with_manifest : Tools → String → Target → Option Manifest → Verdict
with_manifest tools installed target none = refused
with_manifest tools installed target (some m) =
    if not (is_text m.product "wqm1")
    then refused
    else if not (is_text m.version target.version)
    then refused
    else if not (str_eq tools.digest m.sha256)
    then refused
    else if tools.tar_error
    then refused
    else if from_fault tools installed m.min_from_version
    then refused
    else verified m

unfoldable pub with_key : Tools → String → Target → String → List ℕ → Option String → Verdict
with_key tools installed target text signature none = refused
with_key tools installed target text signature (some key) =
    if tools.is_signed text signature key
    then with_manifest tools installed target (tools.parse text)
    else refused

unfoldable pub with_signature : Tools → String → Target → Option String → Option (List ℕ) → Verdict
with_signature tools installed target none signature = refused
with_signature tools installed target (some text) none = refused
with_signature tools installed target (some text) (some signature) =
    with_key tools installed target text signature (load_public_key tools.key_files)

unfoldable pub verify : Tools → String → Target → Verdict
verify tools installed target =
    with_signature tools installed target target.manifest target.signature

-- What a verified bundle is: its manifest is signed by the key of the unit, names this product, the
-- version that was offered and the hash of the bundle, and asks for no later release than the one
-- that is installed.
pub record IsGenuine (tools : Tools) (installed : String) (target : Target) (m : Manifest)
    : Type 0 where
  pub text : String
  pub signature : List ℕ
  pub key : String
  pub of_target : target.manifest ≡ some text
  pub of_signature : target.signature ≡ some signature
  pub of_unit : load_public_key tools.key_files ≡ some key
  pub signed : tools.is_signed text signature key ≡ true
  pub parsed : tools.parse text ≡ some m
  pub product : m.product ≡ some "wqm1"
  pub version : m.version ≡ some target.version
  pub hashed : m.sha256 ≡ tools.digest
  pub packed : tools.tar_error ≡ false
  pub upgrade : from_fault tools installed m.min_from_version ≡ false
