-- ===== src/Transport/Http/Tls/InUse.antt =====
-- Which configuration the client's TLS context comes from (src/HttpsTransport.cpp, `configureSsl`).
use alkaidlab_fw.Base.{
  ◌+◌, ◌≡◌, refl, sym, ap, ◌∙◌, List, [], ◌∷◌, Option, none, some, Bool, true, false, not, ◌&&◌,
  ◌==◌, if◌then◌else◌, length,
}
use alkaidlab_fw.Transport.Http.Tls.{
  SslConfig, SslContext, SslOptions, Version, Answers, Applied, Https, is_zero, options_of,
  version_of, set_versions, fresh, new_context, hand_over, apply, set_ssl_config, disconnect_tls,
}

-- The version that is asked of OpenSSL: of a text that it knows, where it has made the context.
abbrev pub asked_version : Answers → SslConfig → Option Version
asked_version answers config =
    if length config.ssl_version == 0
    then none
    else if not answers.creates
    then none
    else version_of config.ssl_version

-- A context with the options, and with a version as the bounds that OpenSSL accepts.
abbrev pub wanted : Answers → Option Version → SslOptions → SslContext
wanted answers version options = record {
  options = options;
  min_version = if answers.sets_min then version else none;
  max_version = if answers.sets_min && answers.sets_max then version else none;
}

abbrev pub IsConfigured : Answers → SslConfig → SslContext → Type 0
IsConfigured answers config context =
    context ≡ wanted answers (asked_version answers config) (options_of config)

-- Whether the client accepts a configuration.
abbrev pub accepts : Answers → SslConfig → Bool
accepts answers config =
    if length config.ssl_version == 0
    then is_zero answers.new_ssl_ctx
    else if not answers.creates
    then is_zero answers.new_ssl_ctx
    else is_zero answers.set_ssl_ctx

abbrev pub Matches : Option (Answers × SslConfig) → Option SslContext → Type 0
Matches none none = Unit
Matches none (some context) = ⊥
Matches (some given) none = ⊥
Matches (some given) (some context) = IsConfigured given.0 given.1 context

abbrev pub keep_if : Bool → Answers → SslConfig → Option (Answers × SslConfig)
keep_if b answers config = if b then some (answers, config) else none

-- What a call of `configureSsl` leaves: no context of it is leaked or freed twice.
abbrev IsApplied : Option (Answers × SslConfig) → Applied → Type 0
IsApplied given applied =
    Matches given applied.taken × (applied.created ≡ applied.handed + applied.freed)

set_versions-wanted :
    (answers : Answers) (version : Option Version) (options : SslOptions)
    → set_versions answers version (fresh options) ≡ wanted answers version options
unfolding set_versions
set_versions-wanted answers none options = by answers.sets_min answers.sets_max
  where
    by :
        (a b : Bool)
        → fresh options ≡ record {
          options = options;
          min_version = if a then none else none;
          max_version = if a && b then none else none;
        }
    by true true = refl
    by true false = refl
    by false b = refl
set_versions-wanted answers (some v) options = by answers.sets_min answers.sets_max
  where
    by :
        (a b : Bool)
        → (if not a
            then fresh options
            else if not b
            then record (fresh options) { min_version = some v }
            else record (fresh options) { min_version = some v; max_version = some v })
          ≡ record {
            options = options;
            min_version = if a then some v else none;
            max_version = if a && b then some v else none;
          }
    by true true = refl
    by true false = refl
    by false b = refl

fresh-wanted :
    (answers : Answers) (options : SslOptions) → fresh options ≡ wanted answers none options
unfolding set_versions
fresh-wanted answers options = set_versions-wanted answers none options

new_context-IsApplied :
    (answers : Answers) (config : SslConfig)
    → asked_version answers config ≡ none
    → IsApplied (keep_if (is_zero answers.new_ssl_ctx) answers config) (new_context answers config)
unfolding new_context
new_context-IsApplied answers config unasked = (by (is_zero answers.new_ssl_ctx), refl)
  where
    by :
        (b : Bool)
        → Matches (keep_if b answers config) (if b then some (fresh (options_of config)) else none)
    by true =
        fresh-wanted answers (options_of config)
        ∙ ap (λ v. wanted answers v (options_of config)) (sym unasked)
    by false = tt

hand_over-IsApplied :
    (answers : Answers) (config : SslConfig)
    → asked_version answers config ≡ version_of config.ssl_version
    → IsApplied (keep_if (is_zero answers.set_ssl_ctx) answers config) (
        hand_over answers
          (set_versions answers (version_of config.ssl_version) (fresh (options_of config))))
unfolding hand_over
hand_over-IsApplied answers config asked = by (is_zero answers.set_ssl_ctx)
  where
    context : SslContext
    context = set_versions answers (version_of config.ssl_version) (fresh (options_of config))

    by :
        (b : Bool)
        → IsApplied (keep_if b answers config) (
            if b
            then record { taken = some context; created = 1; handed = 1; freed = 0 }
            else record { taken = none; created = 1; handed = 0; freed = 1 })
    by true = (
      set_versions-wanted answers (version_of config.ssl_version) (options_of config)
          ∙ ap (λ v. wanted answers v (options_of config)) (sym asked),
      refl,
    )
    by false = (tt, refl)

pub apply-IsApplied :
    (answers : Answers) (config : SslConfig)
    → IsApplied (keep_if (accepts answers config) answers config) (apply answers config)
unfolding apply
apply-IsApplied answers config =
    by (is_zero answers.new_ssl_ctx) (is_zero answers.set_ssl_ctx) (new_context answers config) _
      (length config.ssl_version == 0) answers.creates (version_of config.ssl_version)
      (asked_version answers config) refl (new_context-IsApplied answers config)
      (hand_over-IsApplied answers config)
  where
    by :
        (x y : Bool) (n h : Applied) (a b : Bool) (v asked : Option Version)
        → asked ≡ (if a then none else if not b then none else v)
        → (asked ≡ none → IsApplied (keep_if x answers config) n)
        → (asked ≡ v → IsApplied (keep_if y answers config) h)
        → IsApplied
            (keep_if (if a then x else if not b then x else y) answers config)
            (if a then n else if not b then n else h)
    by x y n h true b v asked e own handed = own e
    by x y n h false false v asked e own handed = own e
    by x y n h false true v asked e own handed = handed e

-- The calls after the constructor that touch the context.
pub data Op : Type 0 where
  sets : Answers → SslConfig → Op
  disconnects : Op

abbrev pub run : List Op → Https → Https
run [] t = t
run (sets answers config ∷ ops) t = run ops (set_ssl_config answers config t)
run (disconnects ∷ ops) t = run ops (disconnect_tls t)

-- The last configuration that was accepted, of those before the client was dropped.
abbrev pub in_force : Option (Answers × SslConfig) → List Op → Option (Answers × SslConfig)
in_force given [] = given
in_force given (sets answers config ∷ ops) =
    in_force (if accepts answers config then some (answers, config) else given) ops
in_force given (disconnects ∷ ops) = none
