-- ===== src/Worker/Git.antt =====
-- `CloneRepository` of worker/git/clone.go. go-git and ssh are parameters.
pub mod Checkout
use abstruse.Prelude.{
  String, Bool, true, false, not, ◌&&◌, str_eq, cat, Option, none, some, Result, ok, err, panic,
  Effect, pure, lift, done, ◌>>=◌, ◌>>◌, if◌then◌else◌,
}

-- transport.AuthMethod; the key of the last is the signer that was parsed.
pub data AuthMethod : Type 0 where
  no_auth : AuthMethod
  basic_auth : String → String → AuthMethod
  public_keys : String → String → AuthMethod

-- The repository in the directory is the outside. `head` is the name of the reference at its head,
-- `worktree` is r.Worktree's error.
pub record Git (S : Type 0) : Type 0 where
  pub parse_key : String → Result String
  pub clone : String → String → AuthMethod → Effect S (Unit {0})
  pub head : Effect S String
  pub fetch : String → AuthMethod → Effect S (Unit {0})
  pub worktree : Effect S (Unit {0})
  pub checkout_branch : String → Effect S (Unit {0})
  pub checkout_hash : String → Effect S (Unit {0})

-- The arguments of `CloneRepository`.
pub record CloneOf : Type 0 where
  pub url : String
  pub ref : String
  pub commit : String
  pub token : String
  pub dir : String
  pub ssh_url : String
  pub ssh_key : Option String
  pub use_ssh : Bool

module _ {S : Type 0} (git : Git S) where
  abbrev key_auth : Option String → Result AuthMethod
  key_auth none = ok no_auth
  key_auth (some key) = elim (git.parse_key key) [
    | ok signer ↦ ok (public_keys "git" signer)
    | err e ↦ err e
    | panic ↦ panic
  ]

  -- The address and how the worker shows who it is.
  unfoldable pub access : CloneOf → Result (String × AuthMethod)
  access c =
      if not (str_eq c.token "") && not c.use_ssh
      then ok (c.url, basic_auth "user" c.token)
      else if c.use_ssh
      then elim (key_auth c.ssh_key) [ ok a ↦ ok (c.ssh_url, a) | err e ↦ err e | panic ↦ panic ]
      else ok (c.url, no_auth)

  abbrev pub fetch_other : CloneOf → AuthMethod → String → Effect S (Unit {0})
  fetch_other c auth name =
      if not (str_eq name c.ref) then git.fetch (cat c.ref (cat ":" c.ref)) auth else done

  unfoldable pub clone_repository : CloneOf → Effect S (Unit {0})
  clone_repository c = do
    (url, auth) ← lift (access c)
    git.clone c.dir url auth
    name ← git.head
    fetch_other c auth name
    git.worktree
    git.checkout_branch c.ref
    git.checkout_hash c.commit
