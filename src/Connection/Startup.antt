-- ===== src/Connection/Startup.antt =====
-- `init` of dtnex.c, and the start of `main` up to it: the file, the flags, and the connection.
use dtnex_redesign.Base.{
  ◌≡◌, ◌≢◌, refl, ap, subst, ◌∙◌, Bool, true, Option, some, List, [], Bytes, if◌then◌else◌,
}
use dtnex_redesign.Base.Int.{pos}
use dtnex_redesign.Types.{DtnexConfig, NodeMetadata, StructuredMetadata}
use dtnex_redesign.Config.Lines.{codes}
use dtnex_redesign.Config.Assign.{Key, load_config}
use dtnex_redesign.Config.Arguments.{apply_arguments, apply_arguments-with_flags}
use dtnex_redesign.Connection.{ConnectAnswers, Attempt, try_connect_to_ion}
use dtnex_redesign.Connection.Protocol.{
  Client, client_run, try_connect_to_ion-client_run, try_connect_to_ion-service_nr,
}

module _ {D : Type 0} (format_degrees : D → Bytes) where
  -- `connected` of the result is `ionConnected`.
  unfoldable pub init :
      ConnectAnswers → StructuredMetadata → DtnexConfig D → List NodeMetadata → Attempt D
  init a uninitialised config entries =
      let attempt = try_connect_to_ion format_degrees a uninitialised config entries in
      let tried : DtnexConfig D =
        if attempt.connected then attempt.config else record attempt.config { node_id = 0 } in
      record attempt {
        config = record tried { service_nr = codes "12160"; bpecho_service_nr = codes "12161" };
      }

  -- From the beginning of `main` to behind `init`, with an empty list of metadata.
  unfoldable pub start :
      (atof : Bytes → D) (no_degrees : D) (beyond : Key → Bytes)
      → Option Bytes
      → List Bytes
      → ConnectAnswers
      → StructuredMetadata
      → Attempt D
  unfolding init
  start atof no_degrees beyond file arguments a uninitialised =
      init a uninitialised (apply_arguments arguments (load_config atof no_degrees beyond file)) []

  -- Whatever dtnex.conf and the flags configure: a connected start has opened the endpoint of the
  -- configured service number, and `init` leaves the numbers 12160 and 12161 in the configuration
  -- that the rest of the program reads; if `sdr_begin_xn` does not give 0.
  pub start-service_nr :
      (atof : Bytes → D) (no_degrees : D) (beyond : Key → Bytes) (file : Option Bytes)
      (arguments : List Bytes) (a : ConnectAnswers) (uninitialised : StructuredMetadata)
      → a.begin_xn ≢ pos 0
      → (start atof no_degrees beyond file arguments a uninitialised).connected ≡ true
      → (client_run
            (start atof no_degrees beyond file arguments a uninitialised).calls
            Client.detached
          ≡ some (
              Client.ready
                (start atof no_degrees beyond file arguments a uninitialised).config.node_id
                (load_config atof no_degrees beyond file).service_nr))
        × ((start atof no_degrees beyond file arguments a uninitialised).config.service_nr
            ≡ codes "12160")
        × ((start atof no_degrees beyond file arguments a uninitialised).config.bpecho_service_nr
            ≡ codes "12161")
  unfolding start
  start-service_nr atof no_degrees beyond file arguments a uninitialised h k =
      let given : DtnexConfig D =
        apply_arguments arguments (load_config atof no_degrees beyond file) in
      let attempt : Attempt D = try_connect_to_ion format_degrees a uninitialised given [] in
      let opened : client_run attempt.calls Client.detached
          ≡ some (Client.ready attempt.config.node_id attempt.config.service_nr) =
        subst
          (λ (b : Bool).
            client_run attempt.calls Client.detached
            ≡ some (
                if b
                then Client.ready attempt.config.node_id attempt.config.service_nr
                else Client.detached))
          k (try_connect_to_ion-client_run format_degrees a uninitialised given [] h) in
      let configured : attempt.config.service_nr
          ≡ (load_config atof no_degrees beyond file).service_nr =
        try_connect_to_ion-service_nr format_degrees a uninitialised given []
        ∙ ap (λ (c : DtnexConfig D). c.service_nr)
            (apply_arguments-with_flags arguments (load_config atof no_degrees beyond file)) in
      (
        rw (k) (
            subst
              (λ (n : Bytes).
                client_run attempt.calls Client.detached
                ≡ some (Client.ready attempt.config.node_id n))
              configured opened),
        refl,
        refl,
      )
