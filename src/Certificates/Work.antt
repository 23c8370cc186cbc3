-- ===== src/Certificates/Work.antt =====
-- The worker that creates certificates: it ends, and what it did for its requests.
use cain.Prelude.{
  ◌≡◌, refl, sym, ap, ◌∙◌, true, Option, some, List, [], ◌∷◌, ◌++◌, map, arith, All, append-nil,
  append_assoc, map-append,
}
use cain.Go.Text.{GoString}
use cain.Go.Errors.{ForeignError}
use cain.Go.Exec.{returns}
use cain.Kube.Metrics.{MetricsCall, GroupVersionKind, call_namespace}
use cain.Certificates.Creator.{
  Info, Certificate, Work, certificate_call, certificate_gvk, new_certificate, password_request,
  submit, handle_info, start_cert_creator,
}

-- The namespace of a call is that of the request.
certificate_call_namespace :
    (ns gvk : GoString) (failed : Option ForeignError)
    → call_namespace (certificate_call ns gvk failed) ≡ ns
unfolding certificate_call
certificate_call_namespace ns gvk failed = ground arith

module _ {S : Type 0} (create : GoString → Certificate → S → Option ForeignError × S)
    (gvk_string : GroupVersionKind → GoString) (issuer : GoString) where
  -- What the worker has done since `w` for requests: one password secret asked for, and one metrics
  -- call in the namespace, for each of them in their order.
  pub record IsDone (infos : List Info) (w w' : Work S) : Type 0 where
    pub open_still : w'.sec_creation.is_open ≡ true
    pub asked : w'.sec_creation.sent ≡ w.sec_creation.sent ++ map password_request infos
    pub new_calls : List MetricsCall
    pub calls : w'.calls ≡ w.calls ++ new_calls
    pub namespaces : map call_namespace new_calls ≡ map (λ i. i.namespace) infos

  one-IsDone :
      (info : Info) (w : Work S) (cert : Certificate)
      → w.sec_creation.is_open ≡ true
      → new_certificate issuer info ≡ some cert
      → (w' : Work S) × (handle_info create gvk_string issuer info w ≡ returns w')
        × IsDone (info ∷ []) w w'
  unfolding handle_info submit
  one-IsDone info w cert is_open made = (
    submit create gvk_string issuer info cert (record w {
      sec_creation = record {
        is_open = true;
        sent = w.sec_creation.sent ++ password_request info ∷ [];
      };
    }),
    rw (is_open, made, handle_info),
    record {
      open_still = refl;
      asked = refl;
      new_calls = _;
      calls = refl;
      namespaces =
          ap (λ (n : GoString). n ∷ [])
            (certificate_call_namespace info.namespace (gvk_string certificate_gvk)
              ((create info.namespace cert w.api).0));
    },
  )

  -- The work for some requests and then for others is the work for them all.
  IsDone-append :
      (infos infos' : List Info) (w w' w'' : Work S)
      → IsDone infos w w'
      → IsDone infos' w' w''
      → IsDone (infos ++ infos') w w''
  IsDone-append infos infos' w w' w'' first rest = record {
    open_still = rest.open_still;
    asked =
        rest.asked
        ∙ ap (λ l. l ++ map password_request infos') first.asked
        ∙ append_assoc w.sec_creation.sent (map password_request infos)
            (map password_request infos')
        ∙ ap (λ l. w.sec_creation.sent ++ l) (sym (map-append password_request infos infos'));
    new_calls = first.new_calls ++ rest.new_calls;
    calls =
        rest.calls
        ∙ ap (λ l. l ++ rest.new_calls) first.calls
        ∙ append_assoc w.calls first.new_calls rest.new_calls;
    namespaces =
        map-append call_namespace first.new_calls rest.new_calls
        ∙ ap (λ l. l ++ map call_namespace rest.new_calls) first.namespaces
        ∙ ap (λ l. map (λ (i : Info). i.namespace) infos ++ l) rest.namespaces
        ∙ sym (map-append (λ (i : Info). i.namespace) infos infos');
  }

  next_info :
      (info : Info) (infos : List Info) (w w' : Work S)
      → handle_info create gvk_string issuer info w ≡ returns w'
      → start_cert_creator create gvk_string issuer (info ∷ infos) w
        ≡ start_cert_creator create gvk_string issuer infos w'
  unfolding start_cert_creator
  next_info info infos w w' once = rw (start_cert_creator, once)

  -- While the secret worker's channel is open and every request has a DNS name, the worker of the
  -- certificates ends: it has asked for the password secret of each request, in their order, and
  -- made one metrics call for each, in the namespace of that request.
  pub start_cert_creator_total :
      (infos : List Info) (w : Work S)
      → w.sec_creation.is_open ≡ true
      → All (λ info. (cert : Certificate) × (new_certificate issuer info ≡ some cert)) infos
      → (w' : Work S) × (start_cert_creator create gvk_string issuer infos w ≡ returns w')
        × IsDone infos w w'
  unfolding start_cert_creator
  start_cert_creator_total [] w is_open named = (
    w,
    refl,
    record {
      open_still = is_open;
      asked = sym (append-nil w.sec_creation.sent);
      new_calls = [];
      calls = sym (append-nil w.calls);
      namespaces = refl;
    },
  )
  start_cert_creator_total (info ∷ infos) w is_open ((cert, made), named) =
      let (w', once, did) = one-IsDone info w cert is_open made in
      let (w'', ended, rest) = start_cert_creator_total infos w' did.open_still named in
      (
        w'',
        next_info info infos w w' once ∙ ended,
        IsDone-append (info ∷ []) infos w w' w'' did rest,
      )
