-- ===== src/Targets.antt =====
-- backend/src/lib/targetDenylist.ts, targetPolicy.ts and security.ts: which upstreams a route may
-- point at. Node's net, dns and URL and JavaScript's toLowerCase and Number are parameters.
pub mod Hosts
pub mod Metadata
pub mod DenyList
pub mod Policy
pub mod Check
pub mod Access
mod Candidates
mod Admitted
mod Dotted
mod Mapped
mod Denies
mod Loopback
mod Connections
mod Tests
use cluster_gate.Prelude.{ℕ, String, Bool, Option, List}

pub data Family : Type 0 where
  ipv4 ipv6 : Family

-- A number as the tests on it see it: a whole number, one with a fraction under its whole part, one
-- below zero.
pub data Numeral : Type 0 where
  nan infinite negative : Numeral
  whole fraction : ℕ → Numeral

-- What `addSubnet` put into a BlockList.
pub record Subnet : Type 0 where
  pub base : String
  pub bits : ℕ
  pub family : Family

pub record Url : Type 0 where
  pub protocol : String
  pub hostname : String

pub record Platform : Type 0 where
  -- s.toLowerCase() and Number(s)
  pub lower : String → String
  pub number : String → Numeral
  -- net.isIP, and the check of a BlockList that holds one subnet
  pub ip_version : String → Option Family
  pub in_subnet : Subnet → String → Family → Bool
  -- new URL(s), where `none` is its exception
  pub parse_url : String → Option Url
  -- dns.resolve4 followed by dns.resolve6, each empty where it fails, and dns.lookup for all
  pub resolve : String → List String
  pub lookup_all : String → Option (List String)
