-- ===== src/Functions/Workers/Recovery.antt =====
-- A worker that gets its entry into the config map, and then the service up to it, in one reconcile.
use knative_functions_contro.Common.{
  ℕ, suc, String, ◌≤◌, ◌≡◌, ◌≢◌, refl, sym, ap, ◌∙◌, inl, inr, Option, none, some, ◌==◌, eq_refl,
  eq_iff, Dict, insert, lookup_nil, ok, Bool, true, false, Bool-cases, if◌then◌else◌,
}
use mathlib.Core.List.{Memᴰ}
use mathlib.Core.Logic.{if_neg}
use native.Mathlib.Decide.{ℕ_discrete}
use knative_functions_contro.Kube.Objects.{Url, Addressable, Route}
use knative_functions_contro.Kube.Api.{Env}
use knative_functions_contro.Kube.Action.{State}
use knative_functions_contro.Kube.Libraries.{Libraries, Value, raw_extension, JsonLaws}
use knative_functions_contro.Duck.Types.{Function}
use knative_functions_contro.Functions.Config.{host_key}
use knative_functions_contro.Functions.Entries.{config_text, text_or_default, update_config-stores}
use knative_functions_contro.Resources.ConfigMap.{config_key}
use knative_functions_contro.Functions.ServiceSync.{
  template_version, template_version-with_version, calls_of_update, reconcile_service_same,
}
use knative_functions_contro.Functions.Steps.{with_version}
use knative_functions_contro.Functions.Tables.{table, parsed}
use knative_functions_contro.Functions.Workers.Service.{
  Stage, idle, checked, holds, configured, Shared, can_begin, set_stage, checks, reads, stores,
  passes, updates, finishes, Steps, stop, go, all_served, append, all_served-append,
}
use knative_functions_contro.Functions.Workers.Owed.{set_stage-same}

pub set_stage-other :
    (i j : ℕ) (stage : Stage) (workers : ℕ → Stage)
    → i ≢ j
    → set_stage i stage workers j ≡ workers j
set_stage-other i j stage workers ne = if_neg (ℕ_discrete i j) ne stage (workers j)

module _ (show : ℕ → String) where
  -- What the service carries: a version that the config map has had.
  abbrev pub IsCarried : Shared → ℕ → Type 0
  IsCarried s b =
      (b ≤ s.version)
      × (template_version s.service ≡ show b)
      × (m : Dict String) × (s.service.spec.annotations ≡ some m)

-- The server gives no new version if the text is what the config map has already.
abbrev pub has_text : String → Option String → Bool
has_text raw none = false
has_text raw (some text) = text == raw

abbrev pub next_version : String → Shared → ℕ
next_version raw s =
    if has_text raw (lookup_nil config_key s.server.contents) then s.version else suc s.version

text_of : (raw : String) (o : Option String) → has_text raw o ≡ true → text_or_default o ≡ raw
text_of raw none h = cc h
text_of raw (some text) h = (eq_iff text raw).0 h

module _ {W : Type 0} (env : Env W) (libs : Libraries) (function_name ns : String)
    (show : ℕ → String) where
  -- Steps of worker i, with no call refused: from s, where it has its config map, the service is
  -- brought up to that.
  record IsSynced (i : ℕ) (s t : Shared) : Type 0 where
    pub steps : Steps env libs function_name ns show s t
    pub served : all_served env libs function_name ns show steps ≡ true
    pub ended : t.workers i ≡ idle
    pub others : (j : ℕ) → i ≢ j → t.workers j ≡ s.workers j
    pub same_server : t.server ≡ s.server
    pub same_version : t.version ≡ s.version
    pub carries : template_version t.service ≡ t.server.meta.resource_version

  service-IsSynced :
      (i : ℕ) (s : Shared) (m : Dict String) (st : State W Function)
      → s.workers i ≡ configured s.service s.server
      → s.service.spec.annotations ≡ some m
      → (t : Shared) × IsSynced i s t
  unfolding with_version
  service-IsSynced i s m st at annotated =
      elim (Bool-cases (template_version s.service == s.server.meta.resource_version)) [
        | inl same ↦
            let e = (eq_iff (template_version s.service) s.server.meta.resource_version).0 same in
            (
              _,
              record {
                steps =
                    go
                      (finishes i s.service s.service s.server st at
                        (reconcile_service_same env libs function_name s.service s.server st e))
                      stop;
                served = refl;
                ended = set_stage-same i idle s.workers;
                others = λ j ne. set_stage-other i j idle s.workers ne;
                same_server = refl;
                same_version = refl;
                carries = e;
              },
            )
        | inr other ↦
            let ne : template_version s.service ≢ s.server.meta.resource_version = λ e.
              cc
                (other, (eq_iff (template_version s.service) s.server.meta.resource_version).1 e) in
            (
              _,
              record {
                steps =
                    go
                      (updates i s.service _ s.server st at
                        (calls_of_update env libs function_name s.service s.server m st annotated
                          ne)
                        refl)
                      stop;
                served = refl;
                ended = set_stage-same i idle s.workers;
                others = λ j ne. set_stage-other i j idle s.workers ne;
                same_server = refl;
                same_version = refl;
                carries = template_version-with_version s.service s.server.meta.resource_version m;
              },
            )
      ]

module _ {W : Type 0} (env : Env W) (libs : Libraries) (laws : JsonLaws libs)
    (function_name ns : String) (show : ℕ → String) where
  -- What worker i has done until it has its config map, with no call refused.
  record IsConfigured (host raw : String) (i : ℕ) (value : Value) (s t : Shared) : Type 0 where
    pub steps : Steps env libs function_name ns show s t
    pub served : all_served env libs function_name ns show steps ≡ true
    pub at : t.workers i ≡ configured t.service t.server
    pub others : (j : ℕ) → i ≢ j → t.workers j ≡ s.workers j
    pub same_service : t.service ≡ s.service
    pub version : t.version ≡ next_version raw s
    pub stored : table libs t.server host ≡ some (laws.read_value value)
    pub numbered : t.server.meta.resource_version ≡ show t.version

  entry-IsConfigured :
      (i : ℕ) (s : Shared) (host raw : String) (route : Route) (a : Addressable) (key : Url)
      (m : Dict Value) (st : State W Function)
      → s.server.meta.resource_version ≡ show s.version
      → can_begin (s.workers i) ≡ true
      → route.status.address ≡ some a
      → a.url ≡ some key
      → host_key key.host ≡ some host
      → libs.unmarshal_config (config_text s.server) ≡ ok (some m)
      → libs.marshal_config (some (insert host (raw_extension st.object.spec) m)) ≡ ok raw
      → (t : Shared) × IsConfigured host raw i (raw_extension st.object.spec) s t
  entry-IsConfigured i s host raw route a key m st numbered free ha hu hh read written =
      let (cm', made, same_meta, texts, m', read', entries) =
        update_config-stores env libs function_name laws ns host raw s.server route a key m st ha hu
          hh read written in
      let stored' : table libs cm' host ≡ some (laws.read_value (raw_extension st.object.spec)) =
        ap (λ r. parsed r host) read' ∙ entries host ∙ rw (eq_refl host) refl in
      let w1 : ℕ → Stage = set_stage i (checked s.service) s.workers in
      let w2 : ℕ → Stage = set_stage i (holds s.service s.server) w1 in
      let before : (j : ℕ) → i ≢ j → w2 j ≡ s.workers j =
        λ j ne. set_stage-other i j _ w1 ne ∙ set_stage-other i j _ s.workers ne in
      let begun = checks i s.service free (Memᴰ.head refl) in
      let held = reads i s.service (set_stage-same i (checked s.service) s.workers) in
      elim (Bool-cases (has_text raw (lookup_nil config_key s.server.contents))) [
        | inl there ↦
            let text : config_text s.server ≡ config_text cm' =
              text_of raw _ there ∙ sym (ap text_or_default (texts config_key)) in
            (
              _,
              record {
                steps = go begun (
                    go held (
                      go
                        (passes i s.service s.server
                          (set_stage-same i (holds s.service s.server) w1))
                        stop));
                served = refl;
                at = set_stage-same i _ w2;
                others = λ j ne. set_stage-other i j _ w2 ne ∙ before j ne;
                same_service = refl;
                version = rw there refl;
                stored = ap (λ x. parsed (libs.unmarshal_config x) host) text ∙ stored';
                numbered = numbered;
              },
            )
        | inr new ↦ (
          _,
          record {
            steps = go begun (
                go held (
                  go
                    (stores i s.service s.server cm' route st
                      (set_stage-same i (holds s.service s.server) w1) made
                      (ap (λ meta. meta.resource_version) same_meta))
                    stop));
            served = refl;
            at = set_stage-same i _ w2;
            others = λ j ne. set_stage-other i j _ w2 ne ∙ before j ne;
            same_service = refl;
            version = rw new refl;
            stored = stored';
            numbered = refl;
          },
        )
      ]

  -- What a reconcile of worker i has done, which has stored the value under the host's key.
  pub record IsStored (host raw : String) (i : ℕ) (value : Value) (s t : Shared) : Type 0 where
    pub steps : Steps env libs function_name ns show s t
    pub served : all_served env libs function_name ns show steps ≡ true
    pub ended : t.workers i ≡ idle
    pub others : (j : ℕ) → i ≢ j → t.workers j ≡ s.workers j
    pub version : t.version ≡ next_version raw s
    pub stored : table libs t.server host ≡ some (laws.read_value value)
    pub carries : template_version t.service ≡ t.server.meta.resource_version
    pub numbered : t.server.meta.resource_version ≡ show t.version

  -- A worker that may begin can check the service, read the config map, and send its updates.
  pub reconcile-IsStored :
      (i : ℕ) (s : Shared) (host raw : String) (route : Route) (a : Addressable) (key : Url)
      (m : Dict Value) (annotations : Dict String) (st : State W Function)
      → s.service.spec.annotations ≡ some annotations
      → s.server.meta.resource_version ≡ show s.version
      → can_begin (s.workers i) ≡ true
      → route.status.address ≡ some a
      → a.url ≡ some key
      → host_key key.host ≡ some host
      → libs.unmarshal_config (config_text s.server) ≡ ok (some m)
      → libs.marshal_config (some (insert host (raw_extension st.object.spec) m)) ≡ ok raw
      → (t : Shared) × IsStored host raw i (raw_extension st.object.spec) s t
  reconcile-IsStored i s host raw route a key m annotations st annotated numbered free ha hu hh read
        written =
      let (t, first) =
        entry-IsConfigured i s host raw route a key m st numbered free ha hu hh read written in
      let (u, last) =
        service-IsSynced env libs function_name ns show i t annotations st first.at
          (ap (λ svc. svc.spec.annotations) first.same_service ∙ annotated) in
      (
        u,
        record {
          steps = append env libs function_name ns show first.steps last.steps;
          served =
              all_served-append env libs function_name ns show first.steps last.steps first.served
                last.served;
          ended = last.ended;
          others = λ j ne. last.others j ne ∙ first.others j ne;
          version = last.same_version ∙ first.version;
          stored = ap (λ cm. table libs cm host) last.same_server ∙ first.stored;
          carries = last.carries;
          numbered =
              ap (λ cm. cm.meta.resource_version) last.same_server
              ∙ first.numbered
              ∙ ap show (sym last.same_version);
        },
      )
