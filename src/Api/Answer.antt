-- ===== src/Api/Answer.antt =====
-- server/api/render and the beginning of every handler of server/api.
pub mod Spared
use abstruse.Prelude.{ℕ, String, Bool, not, str_eq, Result, ok, err, panic, Effect, if◌then◌else◌}

-- lib.DecodeJSON failed, govalidator refused the form, or the form.
pub data Body (A : Type 0) : Type 0 where
  undecodable : String → Body A
  invalid : String → Body A
  form : A → Body A

-- The status of an answer, and the panic of a handler.
pub data Answer (A : Type 0) : Type 0 where
  success : A → Answer A
  bad_request : String → Answer A
  unauthorized : String → Answer A
  forbidden : String → Answer A
  not_found : String → Answer A
  server_error : String → Answer A
  crashed : Answer A

-- A handler after its request has been read.
abbrev pub Handler : Type 0 → Type 0 → Type 0
Handler S A = S → Answer A × S

module _ {S A B : Type 0} where
  abbrev pub with_body : Body B → (B → Handler S A) → Handler S A
  with_body (undecodable e) h s = (server_error e, s)
  with_body (invalid e) h s = (bad_request e, s)
  with_body (form f) h s = h f s

  -- `x, err := …; if err != nil { render.…(w, err.Error()); return }`
  abbrev pub or_render : (String → Answer A) → Result B → (B → Handler S A) → Handler S A
  or_render render (ok x) h s = h x s
  or_render render (err e) h s = (render e, s)
  or_render render panic h s = (crashed, s)

  abbrev pub or_render_after : (String → Answer A) → Result B × S → (B → Handler S A) → Answer A × S
  or_render_after render (r, s) h = or_render render r h s

module _ {S A : Type 0} where
  -- `if !perms.… { render.UnathorizedError(w, "permission denied"); return }`
  abbrev pub permitted : Bool → Handler S A → Handler S A
  permitted allowed h s = if not allowed then (unauthorized "permission denied", s) else h s

  -- `render.JSON(w, http.StatusOK, …)`
  abbrev pub render_json : A → Handler S A
  render_json a s = (success a, s)

-- `if err != nil || u.Role != "admin" { render.UnathorizedError(w, err.Error()); return }`: for a user
-- who is found and is not an admin, err is nil.
abbrev pub only_admin : {S A : Type 0} → Result String → Handler S A → Handler S A
only_admin (ok role) h s = if not (str_eq role "admin") then (crashed, s) else h s
only_admin (err e) h s = (unauthorized e, s)
only_admin panic h s = (crashed, s)
