-- ===== src/Worker/Git/Checkout.antt =====
-- What a clone that succeeds has done.
use abstruse.Prelude.{String, ◌≡◌, refl, ap, ok, and_run-ok, reading-ok, lift}
use abstruse.Worker.Git.{AuthMethod, Git, CloneOf, access, fetch_other, clone_repository}

module _ {S : Type 0} (git : Git S) where
  -- The last call is the checkout of the commit, in the state that the checkout of the reference left, after
  -- a clone from the chosen address; the head's name decides on the fetch.
  abbrev pub ChecksOut : CloneOf → S → Unit {0} → S → Type 0
  ChecksOut c s u t =
      (url : String) × (auth : AuthMethod) × (name : String) × (s1 : S) × (s2 : S) × (s3 : S)
      × (s4 : S) × (s5 : S) × (access git c ≡ ok (url, auth))
      × (git.clone c.dir url auth s ≡ (ok tt, s1))
      × (git.head s1 ≡ (ok name, s2))
      × (fetch_other git c auth name s2 ≡ (ok tt, s3))
      × (git.worktree s3 ≡ (ok tt, s4))
      × (git.checkout_branch c.ref s4 ≡ (ok tt, s5))
      × (git.checkout_hash c.commit s5 ≡ (ok u, t))

  -- `CloneRepository` succeeds only if it has cloned from the chosen address with the chosen credentials,
  -- has fetched the reference unless it is the head's, and has at last checked out the commit.
  pub clone_repository-ChecksOut :
      (c : CloneOf) (s : S) {u : Unit {0}} {t : S}
      → clone_repository git c s ≡ (ok u, t)
      → ChecksOut c s u t
  unfolding clone_repository
  clone_repository-ChecksOut c s h =
      let ((url, auth), ea, h0) = reading-ok (lift (access git c)) _ (λ _. refl) s h in
      let (_, s1, e1, h1) = and_run-ok (git.clone c.dir url auth s) _ h0 in
      let (name, s2, e2, h2) = and_run-ok (git.head s1) _ h1 in
      let (_, s3, e3, h3) = and_run-ok (fetch_other git c auth name s2) _ h2 in
      let (_, s4, e4, h4) = and_run-ok (git.worktree s3) _ h3 in
      let (_, s5, e5, h5) = and_run-ok (git.checkout_branch c.ref s4) _ h4 in
      (url, auth, name, s1, s2, s3, s4, s5, ap (λ r. r.0) ea, e1, e2, e3, e4, e5, h5)
