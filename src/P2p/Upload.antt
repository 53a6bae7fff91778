-- ===== src/P2p/Upload.antt =====
-- Uploads of files: frontend/utils/file.util.ts and the loop over the chosen files in
-- handleSendMessage of frontend/modules/p2p/components/trading-room/chat-sidebar.tsx. The client, the
-- storage's answers and what the browser reads of a file are a parameter, which may answer
-- differently at each attempt: attempts are numbered. The limiter only delays them.
pub mod Retry
pub mod Names
use Prim.Native.Nat.{suc}
use Prim.Native.Char.{Char, code}
use Prim.Native.String.{String, [] as empty, ◌∷◌ as cons}
use mmn_tx_explorer.Base.{
  ℕ, zero, ◌+◌, ◌*◌, Bool, true, false, ◌&&◌, ◌||◌, Option, none, some, List, [], ◌∷◌, ◌==◌, ltb,
  leb, if◌then◌else◌, str_eq, truthy, includes, is_space, starts_with,
}
use mmn_tx_explorer.Hooks.Transfer.{Answer, threw, answered}

pub record File : Type 0 where
  pub name : String
  pub type : String
  pub size : ℕ

pub record UploadResult : Type 0 where
  pub filename : String
  pub dimensions : Option (ℕ × ℕ)
  pub url : String
  pub size : ℕ
  pub filetype : String

abbrev pub max_file_size : ℕ
max_file_size = 20 * 1024 * 1024

abbrev pub max_retries : ℕ
max_retries = 3

-- `[\u0300-\u036f]`
unfoldable pub is_accent : Char → Bool
is_accent c = leb 768 (code c) && leb (code c) 879

-- `[a-zA-Z0-9._-]`
unfoldable pub is_safe : Char → Bool
is_safe c =
    let n = code c in
    (leb 97 n && leb n 122)
    || ((leb 65 n && leb n 90) || ((leb 48 n && leb n 57) || (n == 46 || (n == 95 || n == 45))))

abbrev pub remove_accents : String → String
remove_accents empty = empty
remove_accents (cons c s) = if is_accent c then remove_accents s else cons c (remove_accents s)

-- `.replace(/\s+/g, '_')`: whether the character before was white space.
abbrev pub join_spaces : Bool → String → String
join_spaces after empty = empty
join_spaces after (cons c s) =
    let within = join_spaces true s in
    let outside = join_spaces false s in
    if is_space c then (if after then within else cons "_" within) else cons c outside

abbrev pub keep_safe : String → String
keep_safe empty = empty
keep_safe (cons c s) = if is_safe c then cons c (keep_safe s) else keep_safe s

-- `name.split('.').pop()`: what stands after the last dot, the whole name where there is none.
abbrev pub extension_from : String → String → String
extension_from last empty = last
extension_from last (cons c s) = if code c == 46 then extension_from s s else extension_from last s

abbrev pub extension_types : List String
extension_types = "pdf" ∷ "doc" ∷ "docx" ∷ "xls" ∷ "xlsx" ∷ "txt" ∷ "json" ∷ []

-- `s || 'application/octet-stream'`
abbrev pub or_octets : String → String
or_octets s = if truthy s then s else "application/octet-stream"

pub record UploadRequest : Type 0 where
  pub filename : String
  pub filetype : String
  pub size : ℕ

-- What is not of the repository, at each attempt.
pub record Network : Type 0 where
  -- `name.normalize('NFD')` and `toLowerCase`
  pub decompose : String → String
  pub to_lower_case : String → String
  -- The instant and the random letters before a file's name.
  pub unique_prefix : ℕ → String → String
  -- `lightClient.uploadAttachment`: the url, where there is one.
  pub upload_attachment : ℕ → UploadRequest → Answer (Option String)
  -- `fetch(url, PUT)`: `ok` and the status.
  pub put : ℕ → String → String → File → Answer (Bool × String)
  -- Protocol, host and path of a url, which throws where it is none.
  pub path_of : String → Answer String
  -- Width and height where the image loads.
  pub load_image : File → Option (ℕ × ℕ)

module _ (net : Network) where
  open net use {
    decompose, to_lower_case, unique_prefix, upload_attachment, put, path_of, load_image,
  }

  unfoldable pub normalize_filename : String → String
  normalize_filename name = keep_safe (join_spaces false (remove_accents (decompose name)))

  unfoldable pub get_safe_file_type : File → String
  get_safe_file_type file =
      let extension = to_lower_case (extension_from file.name file.name) in
      if starts_with "image/" file.type
      then file.type
      else (if includes extension extension_types
          then (if str_eq extension "pdf" then "application/pdf" else extension)
          else or_octets file.type)

  unfoldable pub get_image_dimensions : File → Option (ℕ × ℕ)
  get_image_dimensions file = if starts_with "image/" file.type then load_image file else none

  -- After the file is put at its url.
  unfoldable pub upload_result : File → String → Answer (Option UploadResult)
  unfolding get_safe_file_type get_image_dimensions
  upload_result file url = elim (path_of url) [
    | threw message ↦ threw message
    | answered cdn_url ↦ answered (
        some (record {
          filename = file.name;
          dimensions = get_image_dimensions file;
          url = cdn_url;
          size = file.size;
          filetype = get_safe_file_type file;
        }))
  ]

  unfoldable pub put_file : ℕ → File → String → Answer (Option UploadResult)
  unfolding get_safe_file_type upload_result
  put_file n file url = elim (put n url (get_safe_file_type file) file) [
    | threw message ↦ threw message
    | answered (true, status) ↦ upload_result file url
    | answered (false, status) ↦ threw (some status)
  ]

  -- `uploadAttachmentFile` at the attempt `n`; `answered none` for null.
  unfoldable pub upload_attachment_file : ℕ → File → Answer (Option UploadResult)
  unfolding normalize_filename get_safe_file_type put_file
  upload_attachment_file n file =
      let request : UploadRequest = record {
        filename = unique_prefix n (normalize_filename file.name);
        filetype = get_safe_file_type file;
        size = file.size;
      } in
      elim (upload_attachment n request) [
        | threw message ↦ threw message
        | answered none ↦ answered none
        | answered (some url) ↦ if truthy url then put_file n file url else answered none
      ]

  -- The loop of a file's attempts, on fuel: `n` is the next attempt, `left` how many may still fail.
  -- The result is none where the fuel runs out, else the file's upload, none where all failed, and the
  -- next attempt.
  unfoldable pub attempt_upload : ℕ → ℕ → ℕ → File → Option (Option UploadResult × ℕ)
  unfolding upload_attachment_file
  attempt_upload zero left n file = none
  attempt_upload (suc fuel) zero n file = some (none, n)
  attempt_upload (suc fuel) (suc left) n file =
      let failed = attempt_upload fuel left (n + 1) file in
      let again = attempt_upload fuel (suc left) (n + 1) file in
      elim (upload_attachment_file n file) [
        | threw message ↦ failed
        | answered none ↦ again
        | answered (some result) ↦ some (some result, n + 1)
      ]

  -- The loop over the chosen files: one that is too large is passed over.
  unfoldable pub upload_all : ℕ → ℕ → List File → Option (List UploadResult × ℕ)
  unfolding attempt_upload
  upload_all fuel n [] = some ([], n)
  upload_all fuel n (file ∷ files) =
      if ltb max_file_size file.size
      then upload_all fuel n files
      else (elim (attempt_upload fuel max_retries n file) [
        | none ↦ none
        | some (none, m) ↦ upload_all fuel m files
        | some (some result, m) ↦ elim (upload_all fuel m files) [
          | none ↦ none
          | some (results, k) ↦ some (result ∷ results, k)
        ]
      ])
