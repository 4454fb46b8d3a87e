-- ===== src/Service/Startup/Order.antt =====
-- What has happened when the service is running.
use job_stream.Base.{
  Option, none, some, ◌++◌, codes, decimal_ℤ, Result, ok, err, ◌≡◌, refl, ap, ◌∙◌, sym,
}
use job_stream.Errors.{Error}
use job_stream.Auth.Jwt
use job_stream.Auth.Jwt.{JwtPackage}
use job_stream.Config.{Config}
use job_stream.RateLimit.{RatePackage, new}
use job_stream.Repo.Connect.{run_migrations, new_postgres}
use job_stream.Service.Startup.{
  Host, Running, Start, running, fatal, after_client, after_listen, after_postgres,
  after_migrations, start,
}

module _ (rate : RatePackage) (jwt : JwtPackage) {W P C R : Type 0} (host : Host W P C R)
    (cfg : Config rate.Limit) where
  running_inj :
      {a b : Running rate P C R} → ◌≡◌ {A = Start rate P C R} (running a) (running b) → a ≡ b
  running_inj {a} e = ap (get a) e
    where
      get : Running rate P C R → Start rate P C R → Running rate P C R
      get d (fatal t) = d
      get d (running x) = x

  -- The server and the gateway's client are made from the configuration.
  record IsConfigured (r : Running rate P C R) : Type 0 where
    dials_itself : host.new_client (codes "localhost:" ++ decimal_ℤ cfg.grpc_port) ≡ ok r.connection
    verifies : r.verify ≡ Jwt.verify jwt cfg.jwt_secret
    limits : r.limits ≡ new rate cfg.rate_limit_rps cfg.rate_limit_burst

  -- The migrations came first, then the pool that answered its ping, then the port.
  record IsStarted (r : Running rate P C R) (w w' : W) : Type 0 where
    migrated : W
    opened : W
    migrations : run_migrations host.migrate cfg.database_url w ≡ (none, migrated)
    database :
        new_postgres host.new_pool host.ping host.close_pool cfg.database_url migrated
        ≡ (ok r.pool, opened)
    port : host.listen (codes ":" ++ decimal_ℤ cfg.grpc_port) opened ≡ (none, w')
    configured : IsConfigured r

  module _ (r : Running rate P C R) (w' : W) where
    client-running :
        (pool : P) (c : Result Error C) (w : W)
        → host.new_client (codes "localhost:" ++ decimal_ℤ cfg.grpc_port) ≡ c
        → after_client rate jwt host cfg pool c w ≡ (running r, w')
        → (pool ≡ r.pool) × (w ≡ w') × IsConfigured r
    unfolding after_client
    client-running pool (err e) w made h = cc
    client-running pool (ok conn) w made h =
        let same = running_inj (ap (λ (o : Start rate P C R × W). o.0) h) in
        (
          ap (λ (x : Running rate P C R). x.pool) same,
          ap (λ (o : Start rate P C R × W). o.1) h,
          record {
            dials_itself = made ∙ ap (λ (x : Running rate P C R). ok x.connection) same;
            verifies = sym (ap (λ (x : Running rate P C R). x.verify) same);
            limits = sym (ap (λ (x : Running rate P C R). x.limits) same);
          },
        )

    listen-running :
        (pool : P) (l : Option Error × W)
        → after_listen rate jwt host cfg pool l ≡ (running r, w')
        → (l ≡ (none, w')) × (pool ≡ r.pool) × IsConfigured r
    unfolding after_listen
    listen-running pool (some e, v) h = cc
    listen-running pool (none, v) h =
        let (same, at, made) = client-running pool _ v refl h in
        (ap (λ x. (none, x)) at, same, made)

    postgres-running :
        (w v : W) (o : Result Error P × W)
        → run_migrations host.migrate cfg.database_url w ≡ (none, v)
        → new_postgres host.new_pool host.ping host.close_pool cfg.database_url v ≡ o
        → after_postgres rate jwt host cfg o ≡ (running r, w')
        → IsStarted r w w'
    unfolding after_postgres
    postgres-running w v (err e, u) migrated opened h = cc
    postgres-running w v (ok pool, u) migrated opened h =
        let (bound, same, made) = listen-running pool _ h in
        record {
          migrated = v;
          opened = u;
          migrations = migrated;
          database = opened ∙ ap (λ p. (ok p, u)) same;
          port = bound;
          configured = made;
        }

    migrations-running :
        (w : W) (m : Option Error × W)
        → run_migrations host.migrate cfg.database_url w ≡ m
        → after_migrations rate jwt host cfg m ≡ (running r, w')
        → IsStarted r w w'
    unfolding after_migrations
    migrations-running w (some e, v) migrated h = cc
    migrations-running w (none, v) migrated h = postgres-running w v _ migrated refl h

    -- The service runs only if the migrations were applied, then the database answered its ping, then
    -- the port was bound; its parts are made from the configuration.
    start-IsStarted : (w : W) → start rate jwt host cfg w ≡ (running r, w') → IsStarted r w w'
    unfolding start
    start-IsStarted w h = migrations-running w _ refl h
