-- ===== src/Worker/Images.antt =====
-- worker/docker/image.go, and the registry that Init of worker/docker/init.go keeps. The client of docker
-- is a parameter.
use abstruse.Prelude.{
  ◌≡◌, refl, String, Bool, true, false, not, ◌&&◌, List, [], ◌∷◌, map, Option, none, some, str_eq,
  starts_with, if◌then◌else◌, Result, ok, err, panic, Effect, panics, reads, ◌>>=◌,
}

-- config.Registry
pub record RegistryConfig : Type 0 where
  pub addr : String
  pub username : String
  pub password : String

-- `connects` is whether NewClientWithOpts gives a client, `clean` is path.Clean of path.Join, and `auth` the
-- text of the two credentials for docker. An image is built from its tags and the file, in a tar; a pull
-- and a push give a stream.
pub record Client (S : Type 0) : Type 0 where
  pub connects : S → Bool
  pub clean : String → String → String
  pub auth : String → String → String
  pub build : List String → String → Effect S String
  pub push : String → String → Effect S String
  pub pull : String → Option String → Effect S String
  pub read_all : String → Effect S (Unit {0})
  pub images : S → Result (List String)

-- The loop of `StreamImageEvents`, over what the decoder gives, up to its first error.
unfoldable pub stream_image_events : {A : Type 0} → List (Result A) → List A
stream_image_events [] = []
stream_image_events (ok event ∷ events) = event ∷ stream_image_events events
stream_image_events (err e ∷ events) = []
stream_image_events (panic ∷ events) = []

-- `cfg` is the registry that was given to `Init`.
module _ {S : Type 0} (client : Client S) (cfg : RegistryConfig) where
  unfoldable pub prepend_tag : String → String
  prepend_tag tag = if not (starts_with tag cfg.addr) then client.clean cfg.addr tag else tag

  unfoldable pub configure_tags : List String → List String
  unfolding prepend_tag
  configure_tags = map prepend_tag

  -- `cli, err := client.NewClientWithOpts(); if err != nil { panic(err) }`
  abbrev pub on_docker : {A : Type 0} → Effect S A → Effect S A
  on_docker m s = if client.connects s then m s else panics s

  unfoldable pub build_image : List String → String → Effect S String
  unfolding configure_tags
  build_image tags docker_file = on_docker (client.build (configure_tags tags) docker_file)

  unfoldable pub push_image : String → Effect S String
  unfolding prepend_tag
  push_image tag = on_docker (client.push (prepend_tag tag) (client.auth cfg.username cfg.password))

  abbrev pub registry_auth : Option String
  registry_auth =
      if not (str_eq cfg.username "") && not (str_eq cfg.password "")
      then some (client.auth cfg.username cfg.password)
      else none

  -- The registry that is an argument is not read.
  unfoldable pub pull_image : String → RegistryConfig → Effect S (Unit {0})
  pull_image image config = on_docker (client.pull image registry_auth >>= client.read_all)

  abbrev pub or_panic : {A : Type 0} → Result A → Result A
  or_panic (ok a) = ok a
  or_panic (err e) = panic
  or_panic panic = panic

  unfoldable pub list_images : Effect S (List String)
  list_images = on_docker (reads (λ s. or_panic (client.images s)))

  by_prefix :
      (b : Bool) (tag joined : String)
      → b ≡ starts_with tag cfg.addr
      → starts_with joined cfg.addr ≡ true
      → prepend_tag (if not b then joined else tag) ≡ (if not b then joined else tag)
  unfolding prepend_tag
  by_prefix true tag joined e h = rw (← e) refl
  by_prefix false tag joined e h = rw h refl

  -- Where path.Join leaves the registry's address in front, a tag gets it once.
  prepend_tag-idempotent :
      (tag : String)
      → starts_with (client.clean cfg.addr tag) cfg.addr ≡ true
      → prepend_tag (prepend_tag tag) ≡ prepend_tag tag
  unfolding prepend_tag
  prepend_tag-idempotent tag h =
      by_prefix (starts_with tag cfg.addr) tag (client.clean cfg.addr tag) refl h
