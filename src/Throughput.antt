-- ===== src/Throughput.antt =====
-- utilities/throughput.rs: the load tool. This file has its command line; the sink and the flood are
-- the children. Parsing a number is the standard library's, a parameter.
pub mod Sink
pub mod Flood
mod Tests
use layer4_lb.Prelude.{
  ℕ, zero, suc, String, Option, none, some, List, [], ◌∷◌, if◌then◌else◌, str_eq,
}

-- What `main` does: the usage text, one of the two modes, a message, an error of parsing, or a panic.
pub data Command : Type 0 where
  usage : Command
  server : (port : ℕ) → Command
  client : (target : String) → (connections : ℕ) → (seconds : ℕ) → Command
  invalid_mode : Command
  unparsable : Command
  panicked : Command

abbrev arg : List String → ℕ → Option String
arg [] i = none
arg (s ∷ args) zero = some s
arg (s ∷ args) (suc i) = arg args i

-- `args.get(i).unwrap_or(&default)`.
abbrev arg_or : List String → ℕ → String → String
arg_or args i default = elim (arg args i) [ some s ↦ s | none ↦ default ]

module _ (parse_u16 parse_usize parse_u64 : String → Option ℕ) where
  server_command : List String → Command
  server_command args = elim (parse_u16 (arg_or args 2 "9001")) [
    | some port ↦ server port
    | none ↦ unparsable
  ]

  client_command : List String → Command
  client_command args = elim (arg args 2) [
    | none ↦ panicked
    | some addr ↦ elim (parse_usize (arg_or args 3 "1")) [
      | none ↦ unparsable
      | some connections ↦ elim (parse_u64 (arg_or args 4 "10")) [
        | none ↦ unparsable
        | some duration ↦ client addr connections duration
      ]
    ]
  ]

  pub main_command : List String → Command
  unfolding server_command client_command
  main_command [] = panicked
  main_command (program ∷ []) = usage
  main_command (program ∷ mode ∷ rest) =
      let args = program ∷ mode ∷ rest in
      if str_eq mode "server"
      then server_command args
      else if str_eq mode "client"
      then client_command args
      else invalid_mode
