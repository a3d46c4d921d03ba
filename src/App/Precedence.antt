-- ===== src/App/Precedence.antt =====
-- Where the options of a started application come from.
use newtbig.Prelude.{
  ℕ, ◌≡◌, ◌≢◌, refl, ◌++◌, ◌⊎◌, bytes_beq, bytes_beq_iff, none, ◌∷◌, Bool, false, sym, subst, true,
  List, [], some, ok, arith, bytes_eq, nat_eq, Bytes, codes, Result-cases, Bool-cases, inl, inr,
}
use newtbig.Options.{Options}
use newtbig.Options.Settings.{Setting}
use newtbig.App.Configuration.{
  Environment, Flags, Config, Started, defaults, apply_all, parse_flags, find_work_dir, given_or,
  positive_or, debug_of, tls_file, read_config, find_logs, load, log_name_of, configure,
  new_options,
}

-- A text that is given goes before another.
abbrev pub Chosen : Bytes → Bytes → Bytes → Type 0
Chosen given otherwise result = (given ≢ [] → result ≡ given) × (given ≡ [] → result ≡ otherwise)

-- A number other than zero goes before another.
abbrev pub Preferred : ℕ → ℕ → ℕ → Type 0
Preferred n otherwise result = (n ≢ 0 → result ≡ n) × (n ≡ 0 → result ≡ otherwise)

-- A file of the configuration goes, in the directory of the certificates, before another path.
abbrev pub Certified : Bytes → Bytes → Bytes → Bytes → Type 0
Certified work_dir file otherwise result =
    (file ≢ [] → result ≡ work_dir ++ codes "/config/tls/" ++ file)
    × (file ≡ [] → result ≡ otherwise)

-- What a run mode makes of Debug.
pub record Debugs (mode : Bytes) (before after : Bool) : Type 0 where
  pub on : mode ≡ codes "debug" → after ≡ true
  pub off : (mode ≡ codes "release") ⊎ (mode ≡ codes "dev") → after ≡ false
  pub kept : mode ≢ codes "debug" → mode ≢ codes "release" → mode ≢ codes "dev" → after ≡ before

-- The working directory, of the options and of the process.
pub record Located (env : Environment) (work_dir cwd : Bytes) : Type 0 where
  pub given :
      env.flags.wdir ≢ []
      → (work_dir ≡ env.flags.wdir)
        × (env.opens env.cwd env.flags.wdir ≡ true)
        × (cwd ≡ env.chdir env.cwd env.flags.wdir)
  pub stays : env.flags.wdir ≡ [] → cwd ≡ env.cwd
  pub found : env.flags.wdir ≡ [] → (dir : Bytes) → env.getwd ≡ some dir → work_dir ≡ dir
  pub falls_back : env.flags.wdir ≡ [] → env.getwd ≡ none → work_dir ≡ env.executable_dir

-- What the configuration makes of the options: the flags go before it, and it goes before the settings.
pub record Loaded (config : Config) (flags : Flags) (before after : Options) : Type 0 where
  pub etcd : after.etcd_hosts ≡ config.get_string_slice (codes "app.etcd.hosts")
  pub has_etcd : after.etcd_hosts ≢ []
  pub nats : after.nats_hosts ≡ config.get_string_slice (codes "app.nats.hosts")
  pub has_nats : after.nats_hosts ≢ []
  pub port : Chosen flags.port (config.get_string (codes "app.port")) after.server_port
  pub name : Chosen flags.name (config.get_string (codes "app.serverName")) after.server_name
  pub replicas : Preferred (config.get_uint32 (codes "app.disRep")) before.dis_rep after.dis_rep
  pub length : Preferred (config.get_uint32 (codes "app.disLen")) before.dis_len after.dis_len
  pub queue : Preferred (config.get_uint32 (codes "app.qMsgLen")) before.q_msg_len after.q_msg_len
  pub mode : Debugs (config.get_string (codes "app.runMode")) before.debug after.debug
  pub certificate :
      Certified before.work_dir
        (config.get_string (codes "app.etcd.certFile"))
        before.etcd_cert_file
        after.etcd_cert_file
  pub key :
      Certified before.work_dir
        (config.get_string (codes "app.etcd.keyFile"))
        before.etcd_key_file
        after.etcd_key_file
  pub types : after.server_con_types ≡ config.get_string_slice (codes "app.conTypes")

-- The options of a started application: what was read, from where, and what became of it.
pub record Configured (env : Environment) (opt : Options) (st : Started) : Type 0 where
  pub cwd : Bytes
  pub config : Config
  pub located : Located env st.options.work_dir cwd
  pub named : Chosen env.flags.conf opt.conf_name st.options.conf_name
  pub there :
      env.opens cwd (
        (st.options.work_dir ++ codes "/config")
        ++ codes "/"
        ++ st.options.conf_name
        ++ codes ".yaml")
      ≡ true
  pub reads :
      env.read_in_config cwd (st.options.work_dir ++ codes "/config") st.options.conf_name
      ≡ some config
  pub logs :
      Chosen
        (config.get_string (codes "app.logPath"))
        (st.options.work_dir ++ codes "/logs/")
        st.logs_path
  pub logs_there : (env.opens cwd st.logs_path ≡ true) ⊎ (env.makes cwd st.logs_path ≡ true)
  pub loaded :
      Loaded config env.flags
        (record opt { work_dir = st.options.work_dir; conf_name = st.options.conf_name })
        st.options

given_or-Chosen : (given otherwise : Bytes) → Chosen given otherwise (given_or given otherwise)
unfolding bytes_beq
given_or-Chosen [] otherwise = (λ n. absurd (n refl), λ e. refl)
given_or-Chosen (b ∷ given) otherwise = (λ n. refl, λ e. absurd (ground arith))

positive_or-Preferred : (n otherwise : ℕ) → Preferred n otherwise (positive_or n otherwise)
positive_or-Preferred n otherwise = (λ h. ground arith, λ h. ground arith)

tls_file-Certified :
    (work_dir file otherwise : Bytes)
    → Certified work_dir file otherwise (tls_file work_dir file otherwise)
unfolding bytes_beq
tls_file-Certified work_dir [] otherwise = (λ n. absurd (n refl), λ e. refl)
tls_file-Certified work_dir (b ∷ file) otherwise = (λ n. refl, λ e. absurd (ground arith))

debug_of-Debugs : (mode : Bytes) (before : Bool) → Debugs mode before (debug_of mode before)
unfolding bytes_beq
debug_of-Debugs mode before =
    let d = bytes_beq_iff mode (codes "debug") in
    let r = bytes_beq_iff mode (codes "release") in
    let v = bytes_beq_iff mode (codes "dev") in
    record {
      on = λ e. rw e refl;
      off = λ c. elim c [ inl e ↦ rw e refl | inr e ↦ rw e refl ];
      kept = λ x y z. ground (arith, d, r, v);
    }

module _ (config : Config) (flags : Flags) (before after : Options)
    (e : load config flags before ≡ ok after) where
  loaded_hosts :
      (after.etcd_hosts ≡ config.get_string_slice (codes "app.etcd.hosts"))
      × (after.etcd_hosts ≢ [])
      × (after.nats_hosts ≡ config.get_string_slice (codes "app.nats.hosts"))
      × (after.nats_hosts ≢ [])
  unfolding load
  loaded_hosts = (ground arith, (λ h. ground arith), ground arith, λ h. ground arith)

  load-Loaded :
      Loaded config flags before after
      × (after.work_dir ≡ before.work_dir)
      × (after.conf_name ≡ before.conf_name)
  unfolding load
  load-Loaded =
      let (etcd, has_etcd, nats, has_nats) = loaded_hosts in
      (
        record {
          etcd = etcd;
          has_etcd = has_etcd;
          nats = nats;
          has_nats = has_nats;
          port =
              (let e' : given_or flags.port (config.get_string (codes "app.port"))
                    ≡ after.server_port =
                  ground arith in
                subst (Chosen flags.port (config.get_string (codes "app.port"))) e'
                  (given_or-Chosen flags.port (config.get_string (codes "app.port"))));
          name =
              (let e' : given_or flags.name (config.get_string (codes "app.serverName"))
                    ≡ after.server_name =
                  ground arith in
                subst (Chosen flags.name (config.get_string (codes "app.serverName"))) e'
                  (given_or-Chosen flags.name (config.get_string (codes "app.serverName"))));
          replicas =
              (let e' : positive_or (config.get_uint32 (codes "app.disRep")) before.dis_rep
                    ≡ after.dis_rep =
                  ground arith in
                subst (Preferred (config.get_uint32 (codes "app.disRep")) before.dis_rep) e'
                  (positive_or-Preferred (config.get_uint32 (codes "app.disRep")) before.dis_rep));
          length =
              (let e' : positive_or (config.get_uint32 (codes "app.disLen")) before.dis_len
                    ≡ after.dis_len =
                  ground arith in
                subst (Preferred (config.get_uint32 (codes "app.disLen")) before.dis_len) e'
                  (positive_or-Preferred (config.get_uint32 (codes "app.disLen")) before.dis_len));
          queue =
              (let e' : positive_or (config.get_uint32 (codes "app.qMsgLen")) before.q_msg_len
                    ≡ after.q_msg_len =
                  ground arith in
                subst (Preferred (config.get_uint32 (codes "app.qMsgLen")) before.q_msg_len) e' (
                  positive_or-Preferred (config.get_uint32 (codes "app.qMsgLen"))
                    before.q_msg_len));
          mode =
              (let e' : debug_of (config.get_string (codes "app.runMode")) before.debug
                    ≡ after.debug =
                  ground arith in
                subst (Debugs (config.get_string (codes "app.runMode")) before.debug) e'
                  (debug_of-Debugs (config.get_string (codes "app.runMode")) before.debug));
          certificate =
              (let e' : tls_file before.work_dir (config.get_string (codes "app.etcd.certFile"))
                      before.etcd_cert_file
                    ≡ after.etcd_cert_file =
                  ground arith in
                subst
                  (Certified before.work_dir (config.get_string (codes "app.etcd.certFile"))
                    before.etcd_cert_file)
                  e'
                  (tls_file-Certified before.work_dir
                    (config.get_string (codes "app.etcd.certFile")) before.etcd_cert_file));
          key =
              (let e' : tls_file before.work_dir (config.get_string (codes "app.etcd.keyFile"))
                      before.etcd_key_file
                    ≡ after.etcd_key_file =
                  ground arith in
                subst
                  (Certified before.work_dir (config.get_string (codes "app.etcd.keyFile"))
                    before.etcd_key_file)
                  e'
                  (tls_file-Certified before.work_dir (config.get_string (codes "app.etcd.keyFile"))
                    before.etcd_key_file));
          types = ground arith;
        },
        ground arith,
        ground arith,
      )

read_config_reads :
    (env : Environment) (cwd dir name : Bytes) (config : Config)
    → read_config env cwd dir name ≡ ok config
    → (env.opens cwd ((dir ++ codes "/config") ++ codes "/" ++ name ++ codes ".yaml") ≡ true)
      × (env.read_in_config cwd (dir ++ codes "/config") name ≡ some config)
unfolding read_config
read_config_reads env cwd dir name config e = (ground arith, ground arith)

find_logs_finds :
    (env : Environment) (cwd dir : Bytes) (config : Config) (logs : Bytes)
    → find_logs env cwd dir config ≡ ok logs
    → Chosen (config.get_string (codes "app.logPath")) (dir ++ codes "/logs/") logs
      × ((env.opens cwd logs ≡ true) ⊎ (env.makes cwd logs ≡ true))
unfolding find_logs
find_logs_finds env cwd dir config logs e =
    let path = given_or (config.get_string (codes "app.logPath")) (dir ++ codes "/logs/") in
    let same : path ≡ logs = ground arith in
    (
      subst (Chosen (config.get_string (codes "app.logPath")) (dir ++ codes "/logs/")) same
          (given_or-Chosen (config.get_string (codes "app.logPath")) (dir ++ codes "/logs/")),
      ground arith,
    )

find_work_dir-Located :
    (env : Environment) (dir cwd : Bytes)
    → find_work_dir env env.flags ≡ ok (dir, cwd)
    → Located env dir cwd
unfolding find_work_dir bytes_beq
find_work_dir-Located env dir cwd e =
    let given = bytes_beq_iff env.flags.wdir [] in
    record {
      given = λ n. (ground (arith, given), ground (arith, given), ground (arith, given));
      stays = λ n. ground (arith, given);
      found = λ n d g. ground (arith, given);
      falls_back = λ n g. ground (arith, given);
    }

configure-Configured :
    (env : Environment) (opt : Options) (st : Started)
    → configure env env.flags opt ≡ ok st
    → Configured env opt st
unfolding configure
configure-Configured env opt st e = elim (Result-cases (find_work_dir env env.flags)) [
  | inr (x, f) ↦ absurd (ground arith)
  | inl ((dir, cwd), f) ↦
      let name = given_or env.flags.conf opt.conf_name in
      elim (Result-cases (read_config env cwd dir name)) [
        | inr (x, g) ↦ absurd (ground arith)
        | inl (config, g) ↦ elim (Result-cases (find_logs env cwd dir config)) [
          | inr (x, h) ↦ absurd (ground arith)
          | inl (logs, h) ↦
              elim (Result-cases
                (load config env.flags (record opt { work_dir = dir; conf_name = name }))) [
                  | inr (x, k) ↦ absurd (ground arith)
                  | inl (after, k) ↦
                      subst (Configured env opt) (ground arith)
                        (configured env opt dir cwd config logs after f g h k)
                ]
        ]
      ]
]
  where
    configured :
        (env : Environment) (opt : Options) (dir cwd : Bytes) (config : Config) (logs : Bytes)
        → (after : Options) → find_work_dir env env.flags ≡ ok (dir, cwd)
        → read_config env cwd dir (given_or env.flags.conf opt.conf_name) ≡ ok config
        → find_logs env cwd dir config ≡ ok logs
        → load config env.flags
            (record opt { work_dir = dir; conf_name = given_or env.flags.conf opt.conf_name })
          ≡ ok after
        → Configured env opt
            (record { options = after; logs_path = logs; log_name = log_name_of after })
    configured env opt dir cwd config logs after f g h k =
        let name = given_or env.flags.conf opt.conf_name in
        let before = record opt { work_dir = dir; conf_name = name } in
        let (l, d, n) = load-Loaded config env.flags before after k in
        let (o, r) = read_config_reads env cwd dir name config g in
        let (p, q) = find_logs_finds env cwd dir config logs h in
        record {
          cwd = cwd;
          config = config;
          located = rw d (find_work_dir-Located env dir cwd f);
          named = rw n (given_or-Chosen env.flags.conf opt.conf_name);
          there = rw (d, n) o;
          reads = rw (d, n) r;
          logs = rw d p;
          logs_there = q;
          loaded =
              subst
                (λ x.
                  Loaded config env.flags (record opt { work_dir = x; conf_name = after.conf_name })
                    after)
                (sym d)
                (subst
                  (λ x.
                    Loaded config env.flags (record opt { work_dir = dir; conf_name = x }) after)
                  (sym n) l);
        }

-- When newOptions returns, Parse was left on by the settings, the working directory is that of the
-- flag, which was there, or else the current one, or else that of the executable, and the
-- configuration file that the options name in it was there and was read; the path of the logs is
-- that of the configuration or else `logs` below the working directory, and was there or was made;
-- and of the options: the etcd and NATS hosts are those of the configuration, and there are some;
-- the name of the configuration, the port and the server's name are those of the flags where given,
-- or else the setting and what the configuration says; the numbers of the ring and of the queue are
-- those of the configuration unless it says zero, and then those of the settings; Debug is on for
-- the run mode debug, off for release and dev, and otherwise as the settings left it; a certificate
-- or a key that the configuration names is in `config/tls` of the working directory; and the types
-- to connect to are those of the configuration.
pub new_options-Configured :
    (env : Environment) (processor : ℕ) (settings : List Setting) (st : Started)
    → new_options env processor settings ≡ ok st
    → ((apply_all settings (defaults processor)).parse ≡ true)
      × Configured env (apply_all settings (defaults processor)) st
unfolding new_options parse_flags
new_options-Configured env processor settings st e =
    elim (Bool-cases (apply_all settings (defaults processor)).parse) [
      | inl p ↦ (p, configure-Configured env _ st (ground arith))
      | inr p ↦ absurd (ground arith)
    ]
