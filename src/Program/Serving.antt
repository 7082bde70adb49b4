-- ===== src/Program/Serving.antt =====
-- cmd/controller/main.go: what has to succeed before the API is served, and how a run ends.
use valve_controller.Common.{
  ◌≡◌, refl, ap, ◌∙◌, if◌then◌else◌, Bool, true, false, ◌⊎◌, inl, inr, List, [], ◌∷◌, ◌++◌, ◌↔◌,
  map, In, All, sym, subst, arith, Bool-cases, Sum-cases,
}
use valve_controller.Common.Text.{Text}
use valve_controller.Common.Dict.{Dict}
use valve_controller.Mqtt.Bridge.{BridgeClient, disconnect}
use valve_controller.Mqtt.Manager.{Manager, new_manager, clients, stop_all}
use valve_controller.Program.Tls.{IsMutual, tls_config-IsMutual, IsMutual-tls_config}
use valve_controller.Program.{
  Flags, Outside, TlsConfig, tls_config, Call, launches_api, starts_manager, shuts_down_api,
  stops_client, exits, set_up, run_each, host_name, serve, after_tls, serve_tls, main,
}

abbrev pub IsLaunch : Call → Type 0
IsLaunch (launches_api _ _) = Unit
IsLaunch _ = ⊥

abbrev pub IsExit : Call → Type 0
IsExit (exits _) = Unit
IsExit _ = ⊥

abbrev pub IsStop : Call → Type 0
IsStop (stops_client _) = Unit
IsStop _ = ⊥

pub record IsSetUp (o : Outside) : Type 0 where
  pub manager : o.manager_created ≡ true
  pub valves : o.valves_registered ≡ true
  pub bridges : o.bridges_registered ≡ true
  pub healthz : o.healthz_added ≡ true
  pub readyz : o.readyz_added ≡ true

-- A call of the rest is made only where each call before it succeeds.
run_each-In :
    (cs : List (Call × Bool)) (rest : List Call) (c : Call)
    → In c (run_each cs rest)
    → In c rest × All (λ p. p.1 ≡ true) cs ⊎ (In c (map (λ p. p.0) cs) ⊎ (c ≡ exits 1))
unfolding run_each
run_each-In [] rest c h = inl (h, tt)
run_each-In ((d, true) ∷ cs) rest c (inl e) = inr (inl (inl e))
run_each-In ((d, true) ∷ cs) rest c (inr i) = elim (run_each-In cs rest c i) [
  | inl (r, a) ↦ inl (r, (refl, a))
  | inr (inl l) ↦ inr (inl (inr l))
  | inr (inr e) ↦ inr (inr e)
]
run_each-In ((d, false) ∷ cs) rest c (inl e) = inr (inl (inl e))
run_each-In ((d, false) ∷ cs) rest c (inr (inl e)) = inr (inr e)
run_each-In ((d, false) ∷ cs) rest c (inr (inr h)) = absurd h

-- A call before the API is shut down that does not end the run.
abbrev pub IsQuiet : Call → Type 0
IsQuiet c = (¬ IsExit c) × (¬ IsStop c)

-- The run ends with a failure, and no client is stopped.
abbrev pub Exits : List Call → Type 0
Exits cs = (es : List Call) × All IsQuiet es × (cs ≡ es ++ (exits 1 ∷ []))

-- The manager of the clients as the controllers leave it.
abbrev pub left_by : Outside → Manager
left_by o = o.reconciled (new_manager (host_name o))

-- The API is shut down, then the client of each entry that the map of clients has by then is
-- disconnected, and nothing fails.
abbrev pub Stops : Outside → List Call → Type 0
Stops o cs =
    (es : List Call) × All IsQuiet es
    × (cs
        ≡ es
          ++ (shuts_down_api 30 ∷ map stops_client (map (λ e. disconnect e.1) (left_by o).bridges)))

run_each-Ends :
    (o : Outside) (cs : List (Call × Bool)) (rest : List Call)
    → All (λ p. IsQuiet p.0) cs
    → Exits rest ⊎ Stops o rest
    → Exits (run_each cs rest) ⊎ Stops o (run_each cs rest)
unfolding run_each
run_each-Ends o [] rest q h = h
run_each-Ends o ((c, true) ∷ cs) rest (p, q) h = elim (run_each-Ends o cs rest q h) [
  | inl (es, a, e) ↦ inl (c ∷ es, (p, a), ap (◌∷◌ c) e)
  | inr (es, a, e) ↦ inr (c ∷ es, (p, a), ap (◌∷◌ c) e)
]
run_each-Ends o ((c, false) ∷ cs) rest (p, q) h = inl (c ∷ [], (p, tt), refl)

launch-All :
    (addr : Text) (cfg : TlsConfig) → All IsQuiet (launches_api addr cfg ∷ starts_manager ∷ [])
launch-All addr cfg = (((λ h. h), (λ h. h)), (((λ h. h), (λ h. h)), tt))

set_up-All : (f : Flags) (o : Outside) → All (λ p. IsQuiet p.0) (set_up f o)
unfolding set_up
set_up-All f o = ground arith

map-clients : (m : Dict BridgeClient) → map disconnect (clients m) ≡ map (λ e. disconnect e.1) m
map-clients [] = refl
map-clients ((k, bc) ∷ m) = ap (◌∷◌ (disconnect bc)) (map-clients m)

stop_all-clients : (mgr : Manager) → (stop_all mgr).0 ≡ map (λ e. disconnect e.1) mgr.bridges
unfolding stop_all
stop_all-clients mgr = map-clients mgr.bridges

serve-Ends :
    (f : Flags) (o : Outside) (cfg : TlsConfig) → Exits (serve f o cfg) ⊎ Stops o (serve f o cfg)
unfolding serve
serve-Ends f o cfg =
    let stops = shuts_down_api 30 ∷ map stops_client (stop_all (left_by o)).0 in
    elim (Bool-cases o.started) [
      | inl e ↦ inr (
        launches_api f.api_addr cfg ∷ starts_manager ∷ [],
        launch-All f.api_addr cfg,
        ap (λ b. launches_api f.api_addr cfg ∷ starts_manager ∷ (if b then stops else exits 1 ∷ []))
              e
            ∙ ap
                (λ bcs.
                  launches_api f.api_addr cfg
                  ∷ starts_manager
                  ∷ shuts_down_api 30
                  ∷ map stops_client bcs)
                (stop_all-clients (left_by o)),
      )
      | inr e ↦
          inl (launches_api f.api_addr cfg ∷ starts_manager ∷ [], launch-All f.api_addr cfg, rw e)
    ]

serve_tls-Ends : (f : Flags) (o : Outside) → Exits (serve_tls f o) ⊎ Stops o (serve_tls f o)
unfolding serve_tls
serve_tls-Ends f o = elim (Sum-cases (tls_config f.tls_cert f.tls_key f.tls_client_ca o)) [
  | inl (x, e) ↦ inl ([], tt, rw e)
  | inr (cfg, e) ↦
      subst (λ r. Exits (after_tls f o r) ⊎ Stops o (after_tls f o r)) (sym e) (serve-Ends f o cfg)
]

-- A run of the program either exits with code 1, and has stopped no client of a bridge by then, or
-- never exits so: it shuts the API down, and after that disconnects the clients in the map of the
-- manager as the controllers leave it, each once and no other, and does nothing else.
pub main-Ends : (f : Flags) (o : Outside) → Exits (main f o) ⊎ Stops o (main f o)
unfolding main
main-Ends f o = run_each-Ends o (set_up f o) (serve_tls f o) (set_up-All f o) (serve_tls-Ends f o)

stops-In :
    (addr : Text) (cfg : TlsConfig) (bcs : List BridgeClient)
    → ¬ In (launches_api addr cfg) (map stops_client bcs)
stops-In addr cfg [] h = h
stops-In addr cfg (bc ∷ bcs) (inl e) = cc e
stops-In addr cfg (bc ∷ bcs) (inr i) = stops-In addr cfg bcs i

serve-In :
    (f : Flags) (o : Outside) (cfg : TlsConfig) (addr : Text) (c : TlsConfig)
    → In (launches_api addr c) (serve f o cfg)
    → (addr ≡ f.api_addr) × (c ≡ cfg)
unfolding serve
serve-In f o cfg addr c (inl e) = ground (arith, e)
serve-In f o cfg addr c (inr (inl e)) = cc e
serve-In f o cfg addr c (inr (inr i)) =
    ground (arith, i, stops-In addr c (stop_all (o.reconciled (new_manager (host_name o)))).0)

serve_tls-In :
    (f : Flags) (o : Outside) (addr : Text) (c : TlsConfig)
    → In (launches_api addr c) (serve_tls f o)
    → (addr ≡ f.api_addr) × IsMutual f o c
unfolding serve_tls
serve_tls-In f o addr c h = elim (Sum-cases (tls_config f.tls_cert f.tls_key f.tls_client_ca o)) [
  | inl (x, e) ↦ ground (arith, rw (serve_tls, e) at h)
  | inr (cfg, e) ↦
      let (a, same) = serve-In f o cfg addr c (rw (serve_tls, e) at h) in
      (a, subst (IsMutual f o) (sym same) (tls_config-IsMutual f o cfg e))
]

set_up-In :
    (f : Flags) (o : Outside) (addr : Text) (c : TlsConfig)
    → ¬ In (launches_api addr c) (map (λ p. p.0) (set_up f o))
unfolding set_up
set_up-In f o addr c h = ground (arith, h)

set_up-IsSetUp : (f : Flags) (o : Outside) → All (λ p. p.1 ≡ true) (set_up f o) → IsSetUp o
unfolding set_up
set_up-IsSetUp f o (a, (b, (c, (d, (e, _))))) = record {
  manager = a;
  valves = b;
  bridges = c;
  healthz = d;
  readyz = e;
}

run_each_succeeds :
    (cs : List (Call × Bool)) (rest : List Call) (c : Call)
    → All (λ p. p.1 ≡ true) cs
    → In c rest
    → In c (run_each cs rest)
unfolding run_each
run_each_succeeds [] rest c h i = i
run_each_succeeds ((d, b) ∷ cs) rest c (e, h) i = rw e (inr (run_each_succeeds cs rest c h i))

serve_tls_launches :
    (f : Flags) (o : Outside) (c : TlsConfig)
    → IsMutual f o c
    → In (launches_api f.api_addr c) (serve_tls f o)
unfolding serve_tls serve
serve_tls_launches f o c m = rw (IsMutual-tls_config f o c m) (inl refl)

-- The program launches the API exactly where all controllers and probes are set up and the files
-- give a key pair and at least one certificate of a CA; and it does so with the address of the
-- flag and a configuration that requires TLS 1.3 and a client certificate, verified against these
-- CAs.
pub main_serves_iff :
    (f : Flags) (o : Outside) (addr : Text) (cfg : TlsConfig)
    → In (launches_api addr cfg) (main f o) ↔ ((addr ≡ f.api_addr) × IsMutual f o cfg × IsSetUp o)
unfolding main set_up
main_serves_iff f o addr cfg = (
  (λ h. elim (run_each-In (set_up f o) (serve_tls f o) (launches_api addr cfg) h) [
    | inl (i, a) ↦
        let (at_flag, trust) = serve_tls-In f o addr cfg i in (at_flag, trust, set_up-IsSetUp f o a)
    | inr (inl i) ↦ absurd (set_up-In f o addr cfg i)
    | inr (inr e) ↦ cc e
  ]),
  (λ (e, trust, s).
      run_each_succeeds (set_up f o) (serve_tls f o) (launches_api addr cfg)
        (s.manager, (s.valves, (s.bridges, (s.healthz, (s.readyz, tt)))))
        (subst (λ a. In (launches_api a cfg) (serve_tls f o)) (sym e)
          (serve_tls_launches f o cfg trust))),
)
