-- ===== src/Parser/Config/Jobs.antt =====
-- The jobs that `Parse` of server/parser/parser.go makes of a configuration.
use abstruse.Prelude.{
  String, ◌≡◌, ◌≢◌, ◌↔◌, refl, sym, ap, ◌∙◌, subst, true, false, List, [], ◌∷◌, ◌++◌, map, Option,
  none, some, arith, All, All-append, append_assoc, append-nil, str_eq, Bool-cases, Option-cases,
  inl, inr,
}
use abstruse.Parser.Config.{
  ConfigParser, MatrixConfig, RepoConfig, JobConfig, Parsed, matrix_job, single_job, deploy_job,
  add_job, matrix_loop, test_jobs, deploy_jobs, then_deploy, parse_script, parse,
}

-- What the configuration asks for, written without the loop.
abbrev pub reference_tests : ConfigParser → List MatrixConfig → List JobConfig
reference_tests c [] = single_job c ∷ []
reference_tests c (item ∷ items) = map (matrix_job c) (item ∷ items)

abbrev pub reference_deploy : ConfigParser → List String → List JobConfig
reference_deploy c [] = []
reference_deploy c (cmd ∷ cmds) = deploy_job c ∷ []

abbrev pub reference_jobs : ConfigParser → List JobConfig
reference_jobs c = reference_tests c c.parsed.matrix ++ reference_deploy c c.parsed.deploy

abbrev pub HasImage : JobConfig → Type 0
HasImage job = str_eq job.image "" ≡ false

-- The jobs are all added, or the error is set.
abbrev pub Adds : List JobConfig → List JobConfig → Parsed → Type 0
Adds before new (jobs, none) = (jobs ≡ before ++ new) × All HasImage new
Adds before new (jobs, some e) = ¬ (All HasImage new)

add_job-Adds : (jobs : List JobConfig) (job : JobConfig) → Adds jobs (job ∷ []) (add_job jobs job)
unfolding add_job
add_job-Adds jobs job = elim (Bool-cases (str_eq job.image "")) [
  | inl e ↦ rw e (λ h. cc)
  | inr e ↦ rw e (refl, (e, tt))
]

All-left {ℓ κ} : {A : Type ℓ} (P : A → Type κ) (xs ys : List A) → All P (xs ++ ys) → All P xs
All-left P [] ys h = tt
All-left P (x ∷ xs) ys h = (h.0, All-left P xs ys h.1)

All-right {ℓ κ} : {A : Type ℓ} (P : A → Type κ) (xs ys : List A) → All P (xs ++ ys) → All P ys
All-right P [] ys h = h
All-right P (x ∷ xs) ys h = All-right P xs ys h.1

-- Jobs that were added go in front of those that are added next.
Adds-more :
    (before jobs one two : List JobConfig) (r : Parsed)
    → jobs ≡ before ++ one
    → All HasImage one
    → Adds jobs two r
    → Adds before (one ++ two) r
Adds-more before jobs one two (out, none) e h (e', h') =
    (e' ∙ ap (λ l. l ++ two) e ∙ append_assoc before one two, All-append HasImage one two h h')
Adds-more before jobs one two (out, some _) e h miss = λ all. miss (All-right HasImage one two all)

matrix_loop_stop :
    (c : ConfigParser) (item : MatrixConfig) (items : List MatrixConfig) (jobs : List JobConfig)
    → str_eq (matrix_job c item).image "" ≡ true
    → matrix_loop c (item ∷ items) jobs ≡ (jobs, some "image not specified")
unfolding matrix_loop add_job
matrix_loop_stop c item items jobs e = ground arith

matrix_loop_next :
    (c : ConfigParser) (item : MatrixConfig) (items : List MatrixConfig) (jobs : List JobConfig)
    → str_eq (matrix_job c item).image "" ≡ false
    → matrix_loop c (item ∷ items) jobs ≡ matrix_loop c items (jobs ++ matrix_job c item ∷ [])
unfolding matrix_loop add_job
matrix_loop_next c item items jobs e = ground arith

matrix_loop-Adds :
    (c : ConfigParser) (items : List MatrixConfig) (jobs : List JobConfig)
    → Adds jobs (map (matrix_job c) items) (matrix_loop c items jobs)
unfolding matrix_loop
matrix_loop-Adds c [] jobs = (sym (append-nil jobs), tt)
matrix_loop-Adds c (item ∷ items) jobs =
    let new = map (matrix_job c) (item ∷ items) in
    elim (Bool-cases (str_eq (matrix_job c item).image "")) [
      | inl e ↦ subst (Adds jobs new) (sym (matrix_loop_stop c item items jobs e)) (λ h. cc)
      | inr e ↦ subst (Adds jobs new) (sym (matrix_loop_next c item items jobs e)) (
          Adds-more jobs (jobs ++ matrix_job c item ∷ []) (matrix_job c item ∷ [])
            (map (matrix_job c) items) (matrix_loop c items (jobs ++ matrix_job c item ∷ [])) refl
            (e, tt) (matrix_loop-Adds c items (jobs ++ matrix_job c item ∷ [])))
    ]

test_jobs-Adds :
    (c : ConfigParser) (items : List MatrixConfig)
    → Adds [] (reference_tests c items) (test_jobs c items)
unfolding test_jobs
test_jobs-Adds c [] = add_job-Adds [] (single_job c)
test_jobs-Adds c (item ∷ items) = matrix_loop-Adds c (item ∷ items) []

deploy_jobs-Adds :
    (c : ConfigParser) (cmds : List String) (jobs : List JobConfig)
    → Adds jobs (reference_deploy c cmds) (deploy_jobs c cmds jobs)
unfolding deploy_jobs
deploy_jobs-Adds c [] jobs = (sym (append-nil jobs), tt)
deploy_jobs-Adds c (cmd ∷ cmds) jobs = add_job-Adds jobs (deploy_job c)

then_deploy-Adds :
    (c : ConfigParser) (tests : List JobConfig) (r : Parsed)
    → Adds [] tests r
    → Adds [] (tests ++ reference_deploy c c.parsed.deploy) (then_deploy c r)
then_deploy-Adds c tests (jobs, none) (e, h) =
    Adds-more [] jobs tests (reference_deploy c c.parsed.deploy)
      (deploy_jobs c c.parsed.deploy jobs) e h (deploy_jobs-Adds c c.parsed.deploy jobs)
then_deploy-Adds c tests (jobs, some _) miss =
    λ all. miss (All-left HasImage tests (reference_deploy c c.parsed.deploy) all)

Adds-iff :
    (new : List JobConfig) (r : Parsed)
    → Adds [] new r
    → ((r.1 ≡ none) ↔ All HasImage new) × (r.1 ≡ none → r.0 ≡ new)
Adds-iff new (jobs, none) (e, h) = (((λ _. h), (λ _. refl)), (λ _. e))
Adds-iff new (jobs, some _) miss = (((λ e. cc), (λ h. absurd (miss h))), (λ e. cc))

abbrev Meaning : ConfigParser → List String → Type 0
Meaning c script =
    (((parse_script c script).1 ≡ none) ↔ ((script ≢ []) × All HasImage (reference_jobs c)))
    × ((parse_script c script).1 ≡ none → (parse_script c script).0 ≡ reference_jobs c)

parse_script_iff : (c : ConfigParser) (script : List String) → Meaning c script
unfolding parse_script
parse_script_iff c [] = (((λ e. cc), (λ h. absurd (h.0 refl))), (λ e. cc))
parse_script_iff c (cmd ∷ cmds) =
    let (i, same) =
      Adds-iff (reference_jobs c) (then_deploy c (test_jobs c c.parsed.matrix))
        (then_deploy-Adds c _ (test_jobs c c.parsed.matrix) (test_jobs-Adds c c.parsed.matrix)) in
    (((λ e. ((λ q. cc), i.0 e)), (λ h. i.1 h.1)), same)

module _ (unmarshal : String → RepoConfig × Option String) where
  -- The parser once the raw text has been read.
  abbrev pub filled : ConfigParser → ConfigParser
  filled c = record c { parsed = (unmarshal c.raw).0 }

  parse_empty :
      (c : ConfigParser)
      → str_eq c.raw "" ≡ true
      → (parse unmarshal c).2 ≡ some "cannot parse empty config"
  unfolding parse
  parse_empty c e = rw e

  parse_error :
      (c : ConfigParser) (x : String)
      → str_eq c.raw "" ≡ false
      → (unmarshal c.raw).1 ≡ some x
      → (parse unmarshal c).2 ≡ some x
  unfolding parse
  parse_error c x e q = rw (e, q)

  parse_read :
      (c : ConfigParser)
      → str_eq c.raw "" ≡ false
      → (unmarshal c.raw).1 ≡ none
      → let r = parse_script (filled c) (filled c).parsed.script in
        ((parse unmarshal c).1 ≡ r.0) × ((parse unmarshal c).2 ≡ r.1)
  unfolding parse
  parse_read c e q = (rw (e, q), rw (e, q))

  -- `Parse` returns no error exactly when the text is not empty, the YAML reader accepts it, the script
  -- has a command and every job that the configuration asks for has an image.
  pub parse_succeeds_iff :
      (c : ConfigParser)
      → ((parse unmarshal c).2 ≡ none) ↔ (
          (str_eq c.raw "" ≡ false)
          × ((unmarshal c.raw).1 ≡ none)
          × (((filled c).parsed.script ≢ []) × All HasImage (reference_jobs (filled c))))
  parse_succeeds_iff c = elim (Bool-cases (str_eq c.raw "")) [
    | inl e ↦ (((λ h. cc (parse_empty c e)), (λ h. cc (h.0))))
    | inr e ↦ elim (Option-cases (unmarshal c.raw).1) [
      | inl q ↦
          let (i, _) = parse_script_iff (filled c) (filled c).parsed.script in
          let same = (parse_read c e q).1 in
          ((λ h. (e, q, i.0 (sym same ∙ h))), (λ h. same ∙ i.1 h.2))
      | inr (x, q) ↦ ((λ h. cc (parse_error c x e q)), (λ h. cc (h.1)))
    ]
  ]

  -- Without an error the jobs are those that the configuration asks for: one for each entry of the
  -- matrix in order, or one where there is none, and then the deploy job if there are deploy commands.
  pub parse_jobs :
      (c : ConfigParser)
      → (parse unmarshal c).2 ≡ none
      → (parse unmarshal c).1 ≡ reference_jobs (filled c)
  parse_jobs c h =
      let (e, q, _) = (parse_succeeds_iff c).0 h in
      let (same, err) = parse_read c e q in
      same ∙ (parse_script_iff (filled c) (filled c).parsed.script).1 (sym err ∙ h)
