-- ===== src/Webhook/Mutator/EnvExtends.antt =====
-- The relation between the environment of a container and one with more in it.
use cain.Prelude.{
  ◌≡◌, refl, ap, sym, ◌∙◌, List, [], ◌∷◌, ◌++◌, append-nil, append_assoc, IsPrefix, IsPrefix-refl,
  IsPrefix-append, IsPrefix-trans, Each, Each-refl, Each-trans, Each-split, Each-append, subst,
}
use cain.Go.Text.{GoString}
use cain.Kube.Pods.{EnvVar}
use cain.Webhook.Mutator.JvmEnv.{extended, IsExtended}

-- The variable `w` has the name of `v`, and its value, or that value with more behind it.
abbrev pub VarExtends : EnvVar → EnvVar → Type 0
VarExtends v w = (w.name ≡ v.name) × IsPrefix v.value w.value

-- The old variables in their order, each as it was or with more at the end of its value, and more
-- variables behind them.
pub record EnvExtends (env env' : List EnvVar) : Type 0 where
  pub kept : List EnvVar
  pub more : List EnvVar
  pub parts : env' ≡ kept ++ more
  pub kept_extends : Each VarExtends env kept

VarExtends-refl : (v : EnvVar) → VarExtends v v
VarExtends-refl v = (refl, IsPrefix-refl v.value)

VarExtends-trans : (u v w : EnvVar) → VarExtends u v → VarExtends v w → VarExtends u w
VarExtends-trans u v w a b = (b.0 ∙ a.0, IsPrefix-trans u.value v.value w.value a.1 b.1)

pub EnvExtends-refl : (env : List EnvVar) → EnvExtends env env
EnvExtends-refl env = record {
  kept = env;
  more = [];
  parts = sym (append-nil env);
  kept_extends = Each-refl VarExtends VarExtends-refl env;
}

pub EnvExtends-append : (env more : List EnvVar) → EnvExtends env (env ++ more)
EnvExtends-append env more = record {
  kept = env;
  more = more;
  parts = refl;
  kept_extends = Each-refl VarExtends VarExtends-refl env;
}

pub EnvExtends-trans :
    (env env' env'' : List EnvVar)
    → EnvExtends env env'
    → EnvExtends env' env''
    → EnvExtends env env''
EnvExtends-trans env env' env'' a b =
    let (us, vs, cut, front, rest) =
      Each-split VarExtends a.kept a.more b.kept
        (subst (λ (vs : List EnvVar). Each VarExtends vs b.kept) a.parts b.kept_extends) in
    record {
      kept = us;
      more = vs ++ b.more;
      parts = b.parts ∙ ap (λ (l : List EnvVar). l ++ b.more) cut ∙ append_assoc us vs b.more;
      kept_extends = Each-trans VarExtends VarExtends-trans env a.kept us a.kept_extends front;
    }

-- A first variable of the name with more behind its value.
pub EnvExtends-IsExtended :
    (name value : GoString) (env env' : List EnvVar)
    → IsExtended name value env env'
    → EnvExtends env env'
EnvExtends-IsExtended name value env env' i = record {
  kept = env';
  more = [];
  parts = sym (append-nil env');
  kept_extends =
      rw (i.parts, i.result)
        (Each-append VarExtends i.before (i.variable ∷ i.after) i.before
          (extended value i.variable ∷ i.after) (Each-refl VarExtends VarExtends-refl i.before)
          (
            (refl, IsPrefix-append i.variable.value (b' ' ∷ value)),
            Each-refl VarExtends VarExtends-refl i.after,
          ));
}
