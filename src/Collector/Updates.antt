-- ===== src/Collector/Updates.antt =====
-- What `PUT /config` and `POST /config/reload` of src/rastir/server/app.py do to the collector.
use rastir.Base.{
  String, ◌≡◌, ◌≢◌, refl, inl, inr, subst, Option-cases, Bool-cases, false, Option, some, List,
  arith,
}
use rastir.Dict.{Dict}
use rastir.Config.{ServerConfig}
use rastir.Config.Validation.{Verdict, accepted, invalid, validate_config}
use rastir.Config.Loading.{Setting, File}
use rastir.Config.Sections.{load_config}
use rastir.Config.Overrides.{merge}
use rastir.Collector.{Collector}
use rastir.Collector.Admin.{
  Answer, ok, bad_request, failed, Body, no_json, no_object, sections, Host, if_valid, runtime_data,
  new_config, reload_config, write_config, update_sections, update_config, check_keys,
  check_objects,
}

-- The parts that serve are as they were.
pub record SameParts (c c' : Collector) : Type 0 where
  pub worker : c'.worker ≡ c.worker
  pub settings : c'.settings ≡ c.settings
  pub rate_limiter : c'.rate_limiter ≡ c.rate_limiter
  pub evaluators : c'.evaluators ≡ c.evaluators

module _ (host : Host) where
  -- The configuration is one that the loader has and the validation accepts.
  abbrev pub IsValid : ServerConfig → Type 0
  IsValid cfg = validate_config host.outside.upper cfg ≡ accepted

  if_valid_lem :
      (v : Verdict) (cfg cfg' : ServerConfig)
      → if_valid v cfg ≡ some cfg'
      → (v ≡ accepted) × (cfg ≡ cfg')
  if_valid_lem accepted cfg cfg' h = ground (arith, h)
  if_valid_lem (invalid problems) cfg cfg' h = absurd (ground (arith, h))

  new_config-IsValid :
      (overrides : File) (cfg : ServerConfig)
      → new_config host overrides ≡ some cfg
      → IsValid cfg × (load_config host.outside host.yaml (runtime_data host overrides) ≡ some cfg)
  unfolding new_config
  new_config-IsValid overrides cfg h =
      elim (Option-cases (load_config host.outside host.yaml (runtime_data host overrides))) [
        | inl e ↦ absurd (ground (arith, e, h))
        | inr (cfg', e) ↦
            ground (arith, e, h, if_valid_lem (validate_config host.outside.upper cfg') cfg' cfg)
      ]

  -- What an operation on the configuration may do.
  pub record Guarded (c : Collector) (r : Answer × Collector) : Type 0 where
    pub parts : SameParts c r.1
    pub refused : r.0 ≡ bad_request → r.1 ≡ c
    pub kept : r.0 ≢ ok → r.1.config ≡ c.config
    pub loaded :
        r.0 ≡ ok
        → IsValid r.1.config
          × (load_config host.outside host.yaml (runtime_data host r.1.overrides) ≡ some r.1.config)

  pub reload_config-Guarded : (c : Collector) → Guarded c (reload_config host c)
  unfolding reload_config
  reload_config-Guarded c = elim (Option-cases (new_config host c.overrides)) [
    | inl e ↦ record {
      parts = record { worker = refl; settings = refl; rate_limiter = refl; evaluators = refl };
      refused = ground (arith, e);
      kept = ground (arith, e);
      loaded = ground (arith, e);
    }
    | inr (cfg, e) ↦ record {
      parts = record { worker = refl; settings = refl; rate_limiter = refl; evaluators = refl };
      refused = ground (arith, e);
      kept = ground (arith, e);
      loaded = ground (arith, e, new_config-IsValid c.overrides cfg e);
    }
  ]

  unchanged-Guarded : (c : Collector) (a : Answer) → a ≢ ok → Guarded c (a, c)
  unchanged-Guarded c a h = record {
    parts = record { worker = refl; settings = refl; rate_limiter = refl; evaluators = refl };
    refused = λ e. refl;
    kept = λ e. refl;
    loaded = λ e. absurd (h e);
  }

  no_bad_request : (c : Collector) → (reload_config host c).0 ≢ bad_request
  unfolding reload_config
  no_bad_request c h = elim (Option-cases (new_config host c.overrides)) [
    | inl e ↦ ground (arith, e, h)
    | inr (cfg, e) ↦ ground (arith, e, h)
  ]

  merged-Guarded :
      (c : Collector) (overrides : File)
      → Guarded c (reload_config host (record c { overrides = overrides }))
  merged-Guarded c overrides =
      let c' : Collector = record c { overrides = overrides } in
      let g = reload_config-Guarded c' in
      record {
        parts = record {
          worker = g.parts.worker;
          settings = g.parts.settings;
          rate_limiter = g.parts.rate_limiter;
          evaluators = g.parts.evaluators;
        };
        refused = λ e. absurd (no_bad_request c' e);
        kept = g.kept;
        loaded = g.loaded;
      }

  write_config-Guarded :
      (body : List (String × Dict Setting)) (c : Collector) → Guarded c (write_config host body c)
  unfolding write_config
  write_config-Guarded body c = elim (Option-cases (merge body c.overrides)) [
    | inl e ↦ subst (Guarded c) (ground (arith, e)) (unchanged-Guarded c failed (ground arith))
    | inr (overrides, e) ↦ subst (Guarded c) (ground (arith, e)) (merged-Guarded c overrides)
  ]

  update_sections-Guarded :
      (body : List (String × Option (Dict Setting))) (c : Collector)
      → Guarded c (update_sections host body c)
  unfolding update_sections
  update_sections-Guarded body c = elim (Bool-cases (check_keys body)) [
    | inl e ↦ elim (Option-cases (check_objects body)) [
      | inl f ↦
          subst (Guarded c) (ground (arith, e, f)) (unchanged-Guarded c bad_request (ground arith))
      | inr (checked, f) ↦ subst (Guarded c) (ground (arith, e, f)) (write_config-Guarded checked c)
    ]
    | inr e ↦ subst (Guarded c) (ground (arith, e)) (unchanged-Guarded c bad_request (ground arith))
  ]

  pub update_config-Guarded : (body : Body) (c : Collector) → Guarded c (update_config host body c)
  unfolding update_config
  update_config-Guarded no_json c = unchanged-Guarded c bad_request (ground arith)
  update_config-Guarded no_object c = unchanged-Guarded c bad_request (ground arith)
  update_config-Guarded (sections body) c = update_sections-Guarded body c

  -- What an answer means for the configuration.
  abbrev pub Allowed : Answer → Collector → Collector → Type 0
  Allowed bad_request c c' = c' ≡ c
  Allowed failed c c' = c'.config ≡ c.config
  Allowed ok c c' =
      IsValid c'.config
      × (load_config host.outside host.yaml (runtime_data host c'.overrides) ≡ some c'.config)

  -- `PUT /config` never touches the worker, its settings, the rate limiter or the evaluators. A refused
  -- body changes nothing; after a failure the configuration is as before; after success it is the
  -- one that the loader reads with the overrides on disk, and it passes the validation.
  pub update_config-Allowed :
      (body : Body) (c : Collector)
      → SameParts c (update_config host body c).1
        × Allowed (update_config host body c).0 c (update_config host body c).1
  update_config-Allowed body c = (g.parts, by_answer (update_config host body c).0 refl)
    where
      g : Guarded c (update_config host body c)
      g = update_config-Guarded body c

      by_answer :
          (a : Answer)
          → (update_config host body c).0 ≡ a
          → Allowed a c (update_config host body c).1
      by_answer ok e = g.loaded e
      by_answer bad_request e = g.refused e
      by_answer failed e = g.kept (ground (arith, e))

  -- An update that fails after its values have been merged leaves them on disk. As long as they stand
  -- there, whatever else the server has done since, a reload fails and changes nothing.
  pub reload_config-write_config :
      (body : List (String × Dict Setting)) (c later : Collector) (overrides : File)
      → merge body c.overrides ≡ some overrides
      → (write_config host body c).0 ≡ failed
      → later.overrides ≡ (write_config host body c).1.overrides
      → ((write_config host body c).1.overrides ≡ overrides)
        × (reload_config host later ≡ (failed, later))
  unfolding write_config reload_config
  reload_config-write_config body c later overrides e h same =
      elim (Option-cases (new_config host overrides)) [
        | inl f ↦ ground (arith, e, f, same)
        | inr (cfg, f) ↦ absurd (ground (arith, e, f, h))
      ]

  -- Where the variable that names the file of overrides is not set, a successful update gives the
  -- configuration that a reload would give without it.
  pub update_config-unread :
      (body : Body) (c : Collector)
      → host.variable_set ≡ false
      → (update_config host body c).0 ≡ ok
      → ((reload_config host c).0 ≡ ok)
        × ((update_config host body c).1.config ≡ (reload_config host c).1.config)
  unfolding reload_config new_config
  update_config-unread body c unset h =
      let loaded = (update_config-Guarded body c).loaded h in
      ground (arith, unset, loaded.0, loaded.1)
