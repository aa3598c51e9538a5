-- ===== src/Backend/Carrier/Launched.antt =====
-- What a tunnel process makes of how the backend starts it: `connector::connect` of
-- src/backend/server.cpp with src/backend/tunnel.cpp.
use webpier.Base.{
  String, Bool, true, false, some, ◌≡◌, refl, ◌==◌, is_empty, not, inl, inr, if◌then◌else◌,
  Bool-cases, eq_iff,
}
use webpier.Map.{string_key, find}
use webpier.Store.Types.{Config, Service}
use webpier.Store.Utils.Paths.{make_path, pier_file, to_string, int_to_string}
use webpier.Store.Utils.Paths.Piers.{IsPier, make_path-pier_file}
use webpier.Backend.Carrier.{
  Platform, Identity, identity_of, Contract, cert_path, options_of, launch,
}
use webpier.Backend.Carrier.Program.{ProgramOptions, mapper, declared, set_up}

-- A name is one of those that four tests give, or it is not there: which test gave it.
given_by :
    (a b c d : Bool) (name : String)
    → (if a then "secret" else if b then "cert" else if c then "key" else if d then "ca" else "")
      ≡ name
    → ((name == "secret") ≡ true → a ≡ true)
      × ((name == "cert") ≡ true → b ≡ true)
      × ((name == "key") ≡ true → c ≡ true)
      × ((name == "ca") ≡ true → d ≡ true)
given_by true b c d name e = rw⁻¹ e (λ h. refl, λ h. cc, λ h. cc, λ h. cc)
given_by false true c d name e = rw⁻¹ e (λ h. cc, λ h. refl, λ h. cc, λ h. cc)
given_by false false true d name e = rw⁻¹ e (λ h. cc, λ h. cc, λ h. refl, λ h. cc)
given_by false false false true name e = rw⁻¹ e (λ h. cc, λ h. cc, λ h. cc, λ h. refl)
given_by false false false false name e = rw⁻¹ e (λ h. cc, λ h. cc, λ h. cc, λ h. cc)

-- a name that the mapper gives stands for one variable
mapped :
    (j name : String)
    → mapper j ≡ name
    → ((name == "secret") ≡ true → j ≡ "WORMHOLE_SECRET")
      × ((name == "cert") ≡ true → j ≡ "WORMHOLE_CERT")
      × ((name == "key") ≡ true → j ≡ "WORMHOLE_KEY")
      × ((name == "ca") ≡ true → j ≡ "WORMHOLE_CA")
unfolding mapper
mapped j name m =
    let g =
      given_by (j == "WORMHOLE_SECRET") (j == "WORMHOLE_CERT") (j == "WORMHOLE_KEY")
        (j == "WORMHOLE_CA") name m in
    (
      λ e. (eq_iff j "WORMHOLE_SECRET").0 (g.0 e),
      λ e. (eq_iff j "WORMHOLE_CERT").0 (g.1 e),
      λ e. (eq_iff j "WORMHOLE_KEY").0 (g.2 e),
      λ e. (eq_iff j "WORMHOLE_CA").0 (g.3 e),
    )

module _ (sys : Platform) (po : ProgramOptions sys) where
  open sys use {Endpoint, Environment, to_endpoint?, get}

  -- what the program finds under the names of the environment
  read_environment :
      (env : Environment)
      → let more = po.parse_environment mapper env in
        (find "secret" more ≡ get "WORMHOLE_SECRET" env)
        × (find "cert" more ≡ get "WORMHOLE_CERT" env)
        × (find "key" more ≡ get "WORMHOLE_KEY" env)
        × (find "ca" more ≡ get "WORMHOLE_CA" env)
  unfolding mapper
  read_environment env = (
    po.find-parse_environment mapper env "WORMHOLE_SECRET" "secret" refl refl
        (λ j m. (mapped j _ m).0 refl),
    po.find-parse_environment mapper env "WORMHOLE_CERT" "cert" refl refl
        (λ j m. (mapped j _ m).1 refl),
    po.find-parse_environment mapper env "WORMHOLE_KEY" "key" refl refl
        (λ j m. (mapped j _ m).2 refl),
    po.find-parse_environment mapper env "WORMHOLE_CA" "ca" refl refl
        (λ j m. (mapped j _ m).3 refl),
  )

  -- what `connect` puts into the environment
  put_environment :
      (config : Config) (service : Service) (host peer : Identity) (term : Contract sys)
      (env : Environment)
      → let e = (launch sys config service host peer term env).1 in
        (get "WORMHOLE_SECRET" e ≡ some (to_string term.secret))
        × (get "WORMHOLE_CERT" e ≡ some (cert_path sys config host "cert.crt"))
        × (get "WORMHOLE_KEY" e ≡ some (cert_path sys config host "private.key"))
        × (get "WORMHOLE_CA" e ≡ some (cert_path sys config peer "cert.crt"))
  unfolding launch
  put_environment config service host peer term env =
      (simp sys.get-set, simp sys.get-set, simp sys.get-set, simp sys.get-set)

  -- the path of a file of a pier, as the tunnel is given it
  cert_path-pier_file :
      (config : Config) (pier file : String)
      → IsPier pier
      → is_empty file ≡ false
      → cert_path sys config (identity_of pier) file ≡ pier_file config.repo pier file
  unfolding identity_of
  cert_path-pier_file config pier file h n =
      rw (h.1, identity_of) (make_path-pier_file config.repo pier file h n)

  -- The tunnel process that is started for a service imports it exactly when the service is not the
  -- own one, between the endpoints, with the quality and the secret that were negotiated, with the
  -- files that the store keeps: the certificate and the key of the own pier and the certificate of
  -- the other; and it logs as the settings say. The piers have names of two parts, the address of the
  -- service reads as an endpoint, and the options are read as they are given, with the severity and
  -- the secret.
  pub set_up-launch :
      (config : Config) (service : Service) (term : Contract sys) (env : Environment)
      (address : Endpoint)
      → let host = identity_of config.pier in
        let peer = identity_of service.pier in
        let r = launch sys config service host peer term env in
        IsPier config.pier
        → IsPier service.pier
        → to_endpoint? service.address ≡ some address
        → po.parse_command_line declared r.0 ≡ some (options_of sys config service term)
        → po.to_severity? (int_to_string config.log.level) ≡ some config.log.level
        → po.to_uint64? (to_string term.secret) ≡ some term.secret
        → set_up sys po r.0 r.1
          ≡ some (record {
            logging = config.log.level;
            journal = make_path config.log.folder "carrier.%p.log" "" "";
            router = record {
              imports = not service.local;
              service = address;
              gateway = term.inner;
              faraway = term.alien;
              quality = term.qos;
              secret = term.secret;
              cert = pier_file config.repo config.pier "cert.crt";
              key = pier_file config.repo config.pier "private.key";
              ca = pier_file config.repo service.pier "cert.crt";
            };
          })
  unfolding set_up options_of find
  set_up-launch config service term env address own other a p l s =
      let host = identity_of config.pier in
      let peer = identity_of service.pier in
      let e = (launch sys config service host peer term env).1 in
      let r = read_environment e in
      let w = put_environment config service host peer term env in
      let purpose : ((if service.local then "export" else "import") == "import")
          ≡ not service.local =
        elim (Bool-cases service.local) [ inl t ↦ rw t refl | inr t ↦ rw t refl ] in
      simp (
        p,
        a,
        sys.to_endpoint-endpoint_text,
        sys.to_criteria-criteria_text,
        l,
        s,
        r.0,
        r.1,
        r.2,
        r.3,
        w.0,
        w.1,
        w.2,
        w.3,
        purpose,
        cert_path-pier_file config config.pier "cert.crt" own refl,
        cert_path-pier_file config config.pier "private.key" own refl,
        cert_path-pier_file config service.pier "cert.crt" other refl,
      )
