-- ===== src/Webhook/Mutator/JvmEnv.antt =====
-- The environment of a container of a JVM pod.
use cain.Prelude.{
  ◌≡◌, ◌≢◌, refl, ap, ◌⊎◌, inl, inr, Bool-cases, Bool, true, false, List, [], ◌∷◌, ◌++◌, append-nil,
  All, arith,
}
use cain.Go.Text.{GoString, text, str_eq, str_eq_iff}
use cain.Go.Format.{sprintf}
use cain.Kube.Pods.{EnvVar, Container}
use cain.Webhook.Mutator.Env.{extend_env, add_jvm_env}

-- The options of the variable, and behind a space those for the truststore.
abbrev pub extended : GoString → EnvVar → EnvVar
extended value v = record v { value = v.value ++ b' ' ∷ value }

extended_lem :
    (value : GoString) (v : EnvVar)
    → record v { value = sprintf (text "%s %s") (v.value ∷ value ∷ []) } ≡ extended value v
unfolding sprintf text
extended_lem value v =
    ap (λ (s : GoString). let w : EnvVar = record v { value = v.value ++ b' ' ∷ s } in w)
      (append-nil value)

-- No variable has the name.
abbrev pub IsUnset : GoString → List EnvVar → Type 0
IsUnset name = All (λ v. v.name ≢ name)

-- `env` has a first variable of the name, and `env'` is `env` with that variable extended.
pub record IsExtended (name value : GoString) (env env' : List EnvVar) : Type 0 where
  pub before : List EnvVar
  pub variable : EnvVar
  pub after : List EnvVar
  pub parts : env ≡ before ++ variable ∷ after
  pub unset : IsUnset name before
  pub named : variable.name ≡ name
  pub result : env' ≡ before ++ extended value variable ∷ after

module _ (name value : GoString) where
  -- What the loop over the variables does.
  abbrev Extension : List EnvVar → List EnvVar × Bool → Type 0
  Extension env (env', env_set) =
      IsUnset name env × (env' ≡ env) × (env_set ≡ false)
      ⊎ IsExtended name value env env' × (env_set ≡ true)

  extend_env-Extension : (env : List EnvVar) → Extension env (extend_env name value env)
  unfolding extend_env
  extend_env-Extension [] = inl (tt, refl, refl)
  extend_env-Extension (v ∷ env) = elim (Bool-cases (str_eq v.name name)) [
    | inl same ↦ rw same (
        inr (
          record {
            before = [];
            variable = v;
            after = env;
            parts = refl;
            unset = tt;
            named = ground (arith, str_eq_iff v.name name);
            result = ap (λ (w : EnvVar). w ∷ env) (extended_lem value v);
          },
          refl,
        ))
    | inr other ↦ rw other (elim (extend_env-Extension env) [
      | inl (unset, kept, not_set) ↦ inl (
        ((λ e. absurd (ground (arith, str_eq_iff v.name name))), unset),
        ap (λ vs. v ∷ vs) kept,
        not_set,
      )
      | inr (i, set) ↦ inr (
        record {
          before = v ∷ i.before;
          variable = i.variable;
          after = i.after;
          parts = ap (λ vs. v ∷ vs) i.parts;
          unset = ((λ e. absurd (ground (arith, str_eq_iff v.name name))), i.unset);
          named = i.named;
          result = ap (λ vs. v ∷ vs) i.result;
        },
        set,
      )
    ])
  ]

  -- A container without the variable gets it, with the options for the truststore, at the end of its
  -- environment; in any other, the first variable of the name keeps its options, followed by a space and
  -- those for the truststore. Every other variable and everything else of the container stays.
  pub add_jvm_env_decided :
      (c : Container)
      → IsUnset name c.env
          × (add_jvm_env name value c
              ≡ record c { env = c.env ++ record { name = name; value = value } ∷ [] })
        ⊎ (env' : List EnvVar) × IsExtended name value c.env env'
          × (add_jvm_env name value c ≡ record c { env = env' })
  unfolding add_jvm_env
  add_jvm_env_decided c = elim (extend_env-Extension c.env) [
    | inl (unset, kept, not_set) ↦ inl (unset, rw (not_set, kept) refl)
    | inr (i, set) ↦ inr ((extend_env name value c.env).0, i, rw set refl)
  ]
