-- ===== src/Geo/Settings.antt =====
-- paas-geo-monitor/pkg/app/app.go, `Serve`: the settings that it reads from the environment, and
-- `pingHandler`. `os.LookupEnv`, `net.ParseIP`, `strconv.ParseBool` and `strconv.Atoi` are parameters.
-- What Serve does between the reads, such as registering metrics, is left out.
use drnavigator.Common.{
  String, Bool, true, ◌≡◌, ◌↔◌, Option, none, some, Result, ok, err, ◌==◌, ◌+++◌, if◌then◌else◌,
  not, arith, eq_iff, Result-cases, Option-cases, Bool-cases, inl, inr, [],
}
use drnavigator.Common.Num.{ℤ, pos}
use drnavigator.Geo.Gauge.{GaugeVec, set}

pub record BgpSettings : Type 0 where
  pub check_period : ℤ
  pub check_timeout : ℤ

pub record Settings : Type 0 where
  pub ping_ip : String
  pub ping_peers : Bool
  pub ping_time : ℤ
  pub bgp : Option BgpSettings

-- The gauge without labels that `pingHandler` sets, and the code and text of its answer.
unfoldable pub ping_handler : String → GaugeVec → String × GaugeVec
ping_handler ping_ip health = (ping_ip, set health [] (pos 1))

module _ (lookup : String → Option String) (is_ip : String → Bool)
    (parse_bool : String → Result String Bool) (atoi : String → Result String ℤ) where
  -- `os.Getenv`
  abbrev pub getenv : String → String
  getenv name = elim (lookup name) [ none ↦ "" | some text ↦ text ]

  -- A variable that has a default and is parsed if it is set.
  unfoldable pub variable :
      {A : Type 0} → (String → Result String A) → A → String → String → Result String A
  variable parse default message name = elim (lookup name) [
    | none ↦ ok default
    | some text ↦ elim (parse text) [ err e ↦ err (message +++ e) | ok a ↦ ok a ]
  ]

  abbrev pub ping_peers_variable : Result String Bool
  ping_peers_variable =
      variable parse_bool true "Can't parse PAAS_PING_PEERS value: " "PAAS_PING_PEERS"

  abbrev pub ping_time_variable : Result String ℤ
  ping_time_variable = variable atoi (pos 5) "Can't parse PAAS_PING_TIME value: " "PAAS_PING_TIME"

  abbrev check_period_variable : Result String ℤ
  check_period_variable =
      variable atoi (pos 10) "Can't parse PAAS_BGP_CHECK_PERIOD: " "PAAS_BGP_CHECK_PERIOD"

  abbrev check_timeout_variable : Result String ℤ
  check_timeout_variable =
      variable atoi (pos 30) "Can't parse PAAS_BGP_CHECK_TIMEOUT value: " "PAAS_BGP_CHECK_TIMEOUT"

  unfoldable pub read_bgp : Result String BgpSettings
  read_bgp = elim check_period_variable [
    | err e ↦ err e
    | ok period ↦ elim check_timeout_variable [
      | err e ↦ err (e +++ " \n")
      | ok timeout ↦ ok (record { check_period = period; check_timeout = timeout })
    ]
  ]

  unfoldable pub read_settings : Result String Settings
  unfolding read_bgp
  read_settings =
      if not (is_ip (getenv "PING_IP"))
      then err ("incorrect or empty PING_IP: '" +++ getenv "PING_IP" +++ "'")
      else elim ping_peers_variable [
        | err e ↦ err e
        | ok peers ↦ elim ping_time_variable [
          | err e ↦ err e
          | ok time ↦
              if getenv "PAAS_BGP_METRICS" == "true"
              then elim read_bgp [
                | err e ↦ err e
                | ok bgp ↦ ok (record {
                  ping_ip = getenv "PING_IP";
                  ping_peers = peers;
                  ping_time = time;
                  bgp = some bgp;
                })
              ]
              else ok (record {
                ping_ip = getenv "PING_IP";
                ping_peers = peers;
                ping_time = time;
                bgp = none;
              })
        ]
      ]

  -- The variable is not set, or its text parses.
  abbrev pub Parses : {A : Type 0} → (String → Result String A) → String → Type 0
  Parses {A = A} parse name =
      (text : String) → lookup name ≡ some text → (a : A) × (parse text ≡ ok a)

  variable_iff :
      {A : Type 0} (parse : String → Result String A) (default : A) (message name : String)
      → ((a : A) × (variable parse default message name ≡ ok a)) ↔ Parses parse name
  unfolding variable
  variable_iff parse default message name = elim (Option-cases (lookup name)) [
    | inl unset ↦ (λ h text given. absurd (ground arith), λ h. (default, ground arith))
    | inr (given_text, given) ↦ elim (Result-cases (parse given_text)) [
      | inl (e, bad) ↦ (
        λ (a, works) text given'. absurd (ground arith),
        λ h. (let (a, parses) = h given_text given in absurd (ground arith)),
      )
      | inr (a, good) ↦ (
        λ h text given'. (let same : text ≡ given_text = ground arith in (a, ground arith)),
        λ h. (a, ground arith),
      )
    ]
  ]

  read_bgp_iff :
      ((b : BgpSettings) × (read_bgp ≡ ok b))
      ↔ (Parses atoi "PAAS_BGP_CHECK_PERIOD" × Parses atoi "PAAS_BGP_CHECK_TIMEOUT")
  unfolding read_bgp
  read_bgp_iff =
      let (period_of, period_from) =
        variable_iff atoi (pos 10) "Can't parse PAAS_BGP_CHECK_PERIOD: " "PAAS_BGP_CHECK_PERIOD" in
      let (timeout_of, timeout_from) =
        variable_iff atoi (pos 30) "Can't parse PAAS_BGP_CHECK_TIMEOUT value: "
          "PAAS_BGP_CHECK_TIMEOUT" in
      elim (Result-cases check_period_variable) [
        | inl (x, fails) ↦ (
          λ (b, e). absurd (ground arith),
          λ (p, t). (let (a, works) = period_from p in absurd (ground arith)),
        )
        | inr (period, period_ok) ↦ elim (Result-cases check_timeout_variable) [
          | inl (x, fails) ↦ (
            λ (b, e). absurd (ground arith),
            λ (p, t). (let (a, works) = timeout_from t in absurd (ground arith)),
          )
          | inr (timeout, timeout_ok) ↦ (
            λ h. (period_of (period, period_ok), timeout_of (timeout, timeout_ok)),
            λ h. (record { check_period = period; check_timeout = timeout }, ground arith),
          )
        ]
      ]

  abbrev NeedsBgp : Type 0
  NeedsBgp =
      getenv "PAAS_BGP_METRICS" ≡ "true"
      → Parses atoi "PAAS_BGP_CHECK_PERIOD" × Parses atoi "PAAS_BGP_CHECK_TIMEOUT"

  bgp_part :
      (peers : Bool) (time : ℤ)
      → is_ip (getenv "PING_IP") ≡ true
      → ping_peers_variable ≡ ok peers
      → ping_time_variable ≡ ok time
      → ((s : Settings) × (read_settings ≡ ok s)) ↔ NeedsBgp
  unfolding read_settings
  bgp_part peers time good peers_ok time_ok =
      let by_name = eq_iff (getenv "PAAS_BGP_METRICS") "true" in
      let settings : Option BgpSettings → Settings = λ bgp. record {
        ping_ip = getenv "PING_IP";
        ping_peers = peers;
        ping_time = time;
        bgp = bgp;
      } in
      elim (Bool-cases (getenv "PAAS_BGP_METRICS" == "true")) [
        | inr off ↦ (λ h on. absurd (ground (arith, by_name)), λ h. (settings none, ground arith))
        | inl on ↦ elim (Result-cases read_bgp) [
          | inl (x, fails) ↦ (
            λ (s, e). absurd (ground arith),
            λ b.
                (let is_on : getenv "PAAS_BGP_METRICS" ≡ "true" = ground (arith, by_name) in
                  let (bgp, works) = read_bgp_iff.1 (b is_on) in absurd (ground arith)),
          )
          | inr (bgp, bgp_ok) ↦
              (λ h is_on. read_bgp_iff.0 (bgp, bgp_ok), λ h. (settings (some bgp), ground arith))
        ]
      ]

  -- The settings are read exactly when PING_IP is an address, each of PAAS_PING_PEERS and
  -- PAAS_PING_TIME parses if it is set, and, if PAAS_BGP_METRICS is "true", so does each of the two
  -- variables of BGP.
  pub read_settings_iff : ((s : Settings) × (read_settings ≡ ok s)) ↔ (
      (is_ip (getenv "PING_IP") ≡ true)
      × Parses parse_bool "PAAS_PING_PEERS"
      × Parses atoi "PAAS_PING_TIME"
      × (getenv "PAAS_BGP_METRICS" ≡ "true"
          → Parses atoi "PAAS_BGP_CHECK_PERIOD" × Parses atoi "PAAS_BGP_CHECK_TIMEOUT"))
  unfolding read_settings
  read_settings_iff =
      let (peers_of, peers_from) =
        variable_iff parse_bool true "Can't parse PAAS_PING_PEERS value: " "PAAS_PING_PEERS" in
      let (time_of, time_from) =
        variable_iff atoi (pos 5) "Can't parse PAAS_PING_TIME value: " "PAAS_PING_TIME" in
      elim (Bool-cases (is_ip (getenv "PING_IP"))) [
        | inr bad ↦ (λ (s, e). absurd (ground arith), λ (good, p, t, b). absurd (ground arith))
        | inl good ↦ elim (Result-cases ping_peers_variable) [
          | inl (x, fails) ↦ (
            λ (s, e). absurd (ground arith),
            λ (g, p, t, b). (let (a, works) = peers_from p in absurd (ground arith)),
          )
          | inr (peers, peers_ok) ↦ elim (Result-cases ping_time_variable) [
            | inl (x, fails) ↦ (
              λ (s, e). absurd (ground arith),
              λ (g, p, t, b). (let (a, works) = time_from t in absurd (ground arith)),
            )
            | inr (time, time_ok) ↦
                let (there, back) = bgp_part peers time good peers_ok time_ok in
                (
                  λ h. (good, peers_of (peers, peers_ok), time_of (time, time_ok), there h),
                  λ (g, p, t, b). back b,
                )
          ]
        ]
      ]
