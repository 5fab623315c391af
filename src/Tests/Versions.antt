-- ===== src/Tests/Versions.antt =====
-- A server that keeps every version it stores, and accepts a write of the
-- latest version only.
use mathlib.Core.List.{Memᴰ}
use mathlib.Core.List.Memᴰ.{not-nil}
use mathlib.Core.Path.{subst}
use k8s_health_ai.Prelude.{
  ℕ, ◌<◌, ◌≡◌, refl, sym, ◌∙◌, ap, inl, inr, Bool, true, false, ◌&&◌, none, Outcome, ok, err, List,
  [], ◌∷◌, length, ◌==◌, eq_iff, arith,
}
use k8s_health_ai.Go.Errors.{Error, api_error, already_exists, conflict}
use k8s_health_ai.Go.Strconv.{format_nat}
use k8s_health_ai.Go.Strconv.Laws.{format_nat_inj}
use k8s_health_ai.Api.{ClusterDiagnosis, empty_status}
use k8s_health_ai.Llm.Mock.{mock_provider}
use k8s_health_ai.World.{Answer, Env, World}
use k8s_health_ai.Controller.Patch.{Writer, status_writer, metadata_writer}
use k8s_health_ai.Controller.Patch.Liveness.{server_write}
use k8s_health_ai.Controller.Lifecycle.{SameContent}
use k8s_health_ai.Controller.Lifecycle.Server.{
  SameVersion, Merged, Replaces, Creates, Server, AllReach,
}
use k8s_health_ai.Tests.Data.{crashing_pod, old_event}
use k8s_health_ai.Tests.Memory.{absent}

-- The resource versions count the versions.
unfoldable pub Numbered : List ClusterDiagnosis → Type 0
Numbered [] = Unit
Numbered (cd ∷ cds) = (cd.metadata.resource_version ≡ format_nat (length cds)) × Numbered cds

-- the latest version first
abbrev pub Versions : Type 0
Versions = (log : List ClusterDiagnosis) × Numbered log

abbrev stamped : ℕ → ClusterDiagnosis → ClusterDiagnosis
stamped n cd = record cd { metadata = record cd.metadata { resource_version = format_nat n } }

unfoldable pub push : ClusterDiagnosis → Versions → Versions
unfolding Numbered
push cd (log, numbered) = (stamped (length log) cd ∷ log, (refl, numbered))

abbrev latest : List ClusterDiagnosis → Outcome Error ClusterDiagnosis
latest [] = err absent
latest (cd ∷ cds) = ok cd

abbrev is_version : ClusterDiagnosis → ClusterDiagnosis → Bool
is_version a b =
    a.metadata.name == b.metadata.name
    && (a.metadata.namespace == b.metadata.namespace
        && a.metadata.resource_version == b.metadata.resource_version)

abbrev merge : Writer → ClusterDiagnosis → ClusterDiagnosis → ClusterDiagnosis
merge status_writer y b = record y { status = b.status }
merge metadata_writer y b = record b { status = y.status }

abbrev replace_if :
    Bool → Writer → ClusterDiagnosis → ClusterDiagnosis → Versions → Answer × Versions
replace_if true writer y b v = (ok tt, push (merge writer y b) v)
replace_if false writer y b v = (err (api_error conflict "conflict"), v)

abbrev replace_latest :
    Writer → ClusterDiagnosis → List ClusterDiagnosis → Versions → Answer × Versions
replace_latest writer b [] v = (err absent, v)
replace_latest writer b (y ∷ older) v = replace_if (is_version y b) writer y b v

abbrev create_in : ClusterDiagnosis → List ClusterDiagnosis → Versions → Answer × Versions
create_in cd [] v = (ok tt, push (record cd { status = empty_status }) v)
create_in cd (y ∷ older) v = (err (api_error already_exists "already exists"), v)

abbrev pub versioned : Env Versions
versioned = record {
  get_pod = λ key v. (ok crashing_pod, v);
  get_cached = λ key v. (latest v.0, v);
  api_reader = none;
  set_controller_reference = λ pod cd. ok cd;
  create = λ cd v. create_in cd v.0 v;
  update_status = λ cd v. replace_latest status_writer cd v.0 v;
  update = λ cd v. replace_latest metadata_writer cd v.0 v;
  list_events = λ key v. (ok (old_event ∷ []), v);
  get_logs = λ key container previous v. (ok "panic: nil map", v);
  diagnose = mock_provider "";
  now = λ v. (0, v);
  sleep = λ n v. v;
  marshal_spec = λ spec. ok spec.rest;
  sort_events = λ before events. events;
  parse_time = λ s. none;
  format_time = format_nat;
  sha256_hex = λ s. s;
}

abbrev pub Known : Versions → ClusterDiagnosis → Type 0
Known v x = Memᴰ x v.0

Numbered-below :
    (cds : List ClusterDiagnosis) (x : ClusterDiagnosis)
    → Numbered cds
    → Memᴰ x cds
    → (n : ℕ) × (n < length cds) × (x.metadata.resource_version ≡ format_nat n)
unfolding Numbered
Numbered-below [] x h m = elim m [ ]
Numbered-below (cd ∷ cds) x (e, h) (Memᴰ.head p) =
    (length cds, omega arith, ap (λ c. c.metadata.resource_version) p ∙ e)
Numbered-below (cd ∷ cds) x (e, h) (Memᴰ.tail m) =
    let (n, lt, e') = Numbered-below cds x h m in (n, omega arith, e')

-- no older version has the number of the latest
not_older :
    (n : ℕ) (cds : List ClusterDiagnosis) (x : ClusterDiagnosis)
    → Numbered cds
    → Memᴰ x cds
    → x.metadata.resource_version ≡ format_nat (length cds)
    → ⊥
not_older n cds x h m e =
    let (k, lt, e') = Numbered-below cds x h m in
    let same = format_nat_inj k (length cds) (sym e' ∙ e) in absurd (omega arith)

one_version :
    (cds : List ClusterDiagnosis) (a b : ClusterDiagnosis)
    → Numbered cds
    → Memᴰ a cds
    → Memᴰ b cds
    → a.metadata.resource_version ≡ b.metadata.resource_version
    → a ≡ b
unfolding Numbered
one_version [] a b h m m' v = elim m [ ]
one_version (cd ∷ cds) a b (e, h) (Memᴰ.head p) (Memᴰ.head q) v = p ∙ sym q
one_version (cd ∷ cds) a b (e, h) (Memᴰ.head p) (Memᴰ.tail m) v =
    absurd (not_older 0 cds b h m (sym v ∙ ap (λ c. c.metadata.resource_version) p ∙ e))
one_version (cd ∷ cds) a b (e, h) (Memᴰ.tail m) (Memᴰ.head q) v =
    absurd (not_older 0 cds a h m (v ∙ ap (λ c. c.metadata.resource_version) q ∙ e))
one_version (cd ∷ cds) a b (e, h) (Memᴰ.tail m) (Memᴰ.tail m') v = one_version cds a b h m m' v

latest-Known : (v : Versions) (cd : ClusterDiagnosis) → latest v.0 ≡ ok cd → Known v cd
latest-Known ([], h) cd e = cc
latest-Known (y ∷ older, h) cd e = Memᴰ.head cc

is_version-SameVersion : (y b : ClusterDiagnosis) → is_version y b ≡ true → SameVersion y b
is_version-SameVersion y b e = ground (
  arith,
  eq_iff y.metadata.name b.metadata.name,
  eq_iff y.metadata.namespace b.metadata.namespace,
  eq_iff y.metadata.resource_version b.metadata.resource_version,
)

merge-Merged :
    (writer : Writer) (y b : ClusterDiagnosis) (n : ℕ)
    → Merged writer y b (stamped n (merge writer y b))
merge-Merged status_writer y b n = record {
  name = refl;
  namespace = refl;
  annotations = refl;
  spec = refl;
  status = refl;
}
merge-Merged metadata_writer y b n = record {
  name = refl;
  namespace = refl;
  annotations = refl;
  spec = refl;
  status = refl;
}

replace_if-Replaces :
    (accepted : Bool) (writer : Writer) (y b : ClusterDiagnosis) (older : List ClusterDiagnosis)
    (h : Numbered (y ∷ older))
    → is_version y b ≡ accepted
    → Replaces Known writer b (y ∷ older, h) (replace_if accepted writer y b (y ∷ older, h))
unfolding push
replace_if-Replaces true writer y b older h e = λ x m. elim m [
  | Memᴰ.head p ↦ inr (
    y,
    Memᴰ.tail (Memᴰ.head refl),
    is_version-SameVersion y b e,
    subst (Merged writer y b) (sym p) (merge-Merged writer y b (length (y ∷ older))),
  )
  | Memᴰ.tail m' ↦ inl (inl m')
]
replace_if-Replaces false writer y b older h e = λ x m. inl m

writes-Replaces :
    (writer : Writer) (b : ClusterDiagnosis) (v : Versions)
    → Replaces Known writer b v (replace_latest writer b v.0 v)
writes-Replaces writer b ([], h) = λ x m. inl m
writes-Replaces writer b (y ∷ older, h) =
    replace_if-Replaces (is_version y b) writer y b older h refl

replace_if-remembers :
    (accepted : Bool) (writer : Writer) (y b x : ClusterDiagnosis) (v : Versions)
    → Known v x
    → Known (replace_if accepted writer y b v).1 x
unfolding push
replace_if-remembers true writer y b x (log, h) m = Memᴰ.tail m
replace_if-remembers false writer y b x v m = m

writes-remember :
    (writer : Writer) (b x : ClusterDiagnosis) (v : Versions)
    → Known v x
    → Known (replace_latest writer b v.0 v).1 x
writes-remember writer b x ([], h) m = m
writes-remember writer b x (y ∷ older, h) m =
    replace_if-remembers (is_version y b) writer y b x (y ∷ older, h) m

create_in-Creates : (cd : ClusterDiagnosis) (v : Versions) → Creates Known cd v (create_in cd v.0 v)
unfolding push
create_in-Creates cd ([], h) = λ x m. elim m [
  | Memᴰ.head p ↦ inr (
      subst (SameContent (record cd { status = empty_status })) (sym p)
        (record { name = refl; namespace = refl; annotations = refl; spec = refl; status = refl }))
  | Memᴰ.tail m' ↦ inl (inl m')
]
create_in-Creates cd (y ∷ older, h) = λ x m. inl m

pub SameContent-refl : (cd : ClusterDiagnosis) → SameContent cd cd
SameContent-refl cd = record {
  name = refl;
  namespace = refl;
  annotations = refl;
  spec = refl;
  status = refl;
}

owned-SameContent :
    (a b : ClusterDiagnosis) (r : Outcome Error ClusterDiagnosis)
    → r ≡ ok a
    → r ≡ ok b
    → SameContent a b
owned-SameContent a b r e e' =
    let same : a ≡ b = cc in subst (SameContent a) same (SameContent-refl a)

server_writes :
    (writer : Writer) (b : ClusterDiagnosis) (v : Versions)
    → Replaces Known writer b v (server_write versioned writer b v)
server_writes status_writer = writes-Replaces status_writer
server_writes metadata_writer = writes-Replaces metadata_writer

server_remembers :
    (writer : Writer) (b x : ClusterDiagnosis) (v : Versions)
    → Known v x
    → Known (server_write versioned writer b v).1 x
server_remembers status_writer = writes-remember status_writer
server_remembers metadata_writer = writes-remember metadata_writer

pub versioned-Server : Server Known versioned
unfolding k8s_health_ai.Controller.Patch.read_with k8s_health_ai.Llm.Mock.mock_provider
versioned-Server = record {
  one_version = λ v a b m m' same. one_version v.0 a b v.1 m m' same.2;
  reads = λ key v cd e. latest-Known v cd e;
  writes = server_writes;
  remembers = server_remembers;
  creates = create_in-Creates;
  owns = λ pod cd owned e. owned-SameContent cd owned (ok cd) refl e;
  quiet_pod = λ key v x m. inl m;
  quiet_cache = λ key v x m. inl m;
  quiet_read = λ key v x m. inl m;
  quiet_events = λ key v x m. inl m;
  quiet_logs = λ key container previous v x m. inl m;
  quiet_llm = λ fc v x m. inl m;
  quiet_clock = λ v x m. inl m;
  quiet_sleep = λ n v x m. inl m;
}

abbrev pub empty : World Versions
unfolding Numbered
empty = record { state = ([], tt); calls = [] }

pub nothing-Known : AllReach Known empty.state
unfolding Numbered
nothing-Known x m = absurd (not-nil m)
