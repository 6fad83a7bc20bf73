-- ===== src/Worker/Cache.antt =====
-- worker/cache: the archive of a job's cached folders, its upload to the server and its download, and
-- `sendAuthRequest` of worker/app/app.go, which reads the server's answers the same way. Files,
-- archives and JSON are parameters.
pub mod Names
use Prim.Native.Char.{Char, code}
use abstruse.Prelude.{
  ℕ, ◌==◌, String, Bool, true, false, cat, str_eq, List, [], ◌∷◌, Option, none, some, Result, ok,
  err, panic, Effect, pure, lift, done, raise, reads, and_run, ◌>>=◌, ◌>>◌, trim_prefix,
  if◌then◌else◌,
}
use abstruse.Worker.Http
use abstruse.Worker.Http.{Net, Response, Request}

-- strings.ReplaceAll(s, "/", "_")
unfoldable pub underscored : String → String
underscored String.[] = ""
underscored (String.◌∷◌ c s) = String.◌∷◌ (if code c == 47 then "_" else c) (underscored s)

-- fmt.Sprintf("%s-%s.tgz", repo, branch)
abbrev pub dashed : String → String → String
dashed repo branch = cat repo (cat "-" (cat branch ".tgz"))

unfoldable pub file_name : String → String → String
unfolding underscored
file_name repo branch = underscored (dashed repo branch)

-- What filepath.Walk gives for a path: its own error, and what the file is. `link` is Readlink's
-- answer for a symbolic link; `regular` says that the header's type flag has a body.
pub record Entry : Type 0 where
  pub path : String
  pub error : Option String
  pub is_dir : Bool
  pub link : Option (Result String)
  pub regular : Bool

-- The file system, tar and gzip. `header` is tar.FileInfoHeader, `copy` opens a file and copies it.
pub record Files (S : Type 0) : Type 0 where
  pub join_path : String → String → String
  pub dir : String → String
  pub base : String → String
  pub exists : String → S → Bool
  pub remove_all : String → Effect S (Unit {0})
  pub create : String → Effect S (Unit {0})
  pub walk : String → S → List Entry
  pub header : Entry → String → Option String
  pub write_header : String → Effect S (Unit {0})
  pub copy : String → Effect S (Unit {0})

abbrev pub fails_with : {S : Type 0} → Option String → Effect S (Unit {0})
fails_with none = done
fails_with (some e) = raise e

abbrev pub link_of : Option (Result String) → Result String
link_of none = ok ""
link_of (some r) = r

module _ {S : Type 0} (files : Files S) where
  -- The function that Walk calls, for the archive at `out`.
  abbrev written : String → Entry → Effect S (Unit {0})
  written out e = lift (link_of e.link) >>= λ link.
      fails_with (files.header e link)
      >> (files.write_header (trim_prefix e.path (cat (files.dir out) "/"))
          >> (if e.regular then files.copy e.path else done))

  unfoldable pub archive_entry : String → Entry → Effect S (Unit {0})
  archive_entry out e = fails_with e.error >> (if e.is_dir then done else written out e)

  unfoldable pub archive_entries : String → List Entry → Effect S (Unit {0})
  archive_entries out [] = done
  archive_entries out (e ∷ es) = archive_entry out e >> archive_entries out es

  unfoldable pub archive_folders : String → List String → Effect S (Unit {0})
  archive_folders out [] = done
  archive_folders out (f ∷ fs) =
      (λ s. archive_entries out (files.walk (files.join_path (files.dir out) f) s) s)
      >> archive_folders out fs

  -- gzip accepts the level BestSpeed.
  unfoldable pub create_archive : List String → String → Effect S (Unit {0})
  create_archive folders out = files.create out >> archive_folders out folders

  abbrev remove_old : String → Effect S (Unit {0})
  remove_old out s = if files.exists out s then files.remove_all out s else done s

  -- The path is returned with every error.
  unfoldable pub save_cache : String → String → List String → String → Effect S String
  unfolding file_name
  save_cache repo branch cache dir =
      let out = files.join_path dir (file_name repo branch) in
      remove_old out >> (create_archive cache out >> pure out)

-- How the JSON of an answer is read: a status that is true or false, or the error's message.
pub record Decoder : Type 0 where
  pub status : String → Result Bool
  pub message : String → Result String
  pub accepted : String → Result (Unit {0})

unfoldable pub upload_answer : Decoder → Response → Result (Unit {0})
upload_answer decode r =
    if r.status == 200
    then elim (decode.status r.body) [
      | ok true ↦ ok tt
      | ok false ↦ err "unknown status"
      | err e ↦ err e
      | panic ↦ panic
    ]
    else elim (decode.message r.body) [
      | ok m ↦ err (cat "error uploading cache to abstruse server: " m)
      | err e ↦ err e
      | panic ↦ panic
    ]

-- `sendAuthRequest`
unfoldable pub auth_answer : Decoder → Response → Result (Unit {0})
auth_answer decode r =
    if r.status == 200 then decode.accepted r.body else elim (decode.message r.body) [
      | ok m ↦ err (cat "error connecting to abstruse server: " m)
      | err e ↦ err e
      | panic ↦ panic
    ]

module _ {S : Type 0} (net : Net S) (decode : Decoder) where
  unfoldable pub send_auth_request : Http.Client → Effect S (Unit {0})
  send_auth_request client =
      Http.req net client
        (record { method = "POST"; path = "/api/v1/workers/auth"; headers = []; body = "" })
      >>= λ r. lift (auth_answer decode r)

  -- `read` opens the archive and writes it into a form, whose content type it gives; `token` is the
  -- worker's.
  unfoldable pub upload_cache :
      (String → Effect S (String × String)) → String → Result String → String → Effect S (Unit {0})
  upload_cache read server token path = do
    (body, content_type) ← read path
    token ← lift token
    client ← Http.new_client net server token
    r ← Http.req net client (record {
      method = "POST";
      path = "/api/v1/workers/cache";
      headers = ("Content-Type", content_type) ∷ [];
      body = body;
    })
    lift (upload_answer decode r)

  abbrev unpacked :
      (String → String → Effect S (Unit {0}))
      → (String → Effect S (Unit {0}))
      → String
      → Response
      → Effect S (Unit {0})
  unpacked save unarchive out r =
      if r.status == 200
      then (save out r.body >> unarchive out)
      else (lift (decode.message r.body) >>= raise)

  -- `save` copies the answer into the file that was created, and closes it.
  unfoldable pub download_cache :
      (String → Effect S (Unit {0}))
      → (String → String → Effect S (Unit {0}))
      → (String → Effect S (Unit {0}))
      → String
      → Result String
      → String
      → String
      → Effect S (Unit {0})
  download_cache create save unarchive server token name out = do
    create out
    token ← lift token
    client ← Http.new_client net server token
    r ← Http.req net client (record {
      method = "GET";
      path = cat "/api/v1/workers/cache?file=" name;
      headers = [];
      body = "";
    })
    unpacked save unarchive out r
