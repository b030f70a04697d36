-- ===== src/Policy/Platform.antt =====
-- What the policies take from Python, and the arguments of a tool call.
use axiom_agent.Prelude.{String, Bool, Option, List}

-- The flags of an `ipaddress` object.
pub record Address : Type 0 where
  pub is_private : Bool
  pub is_loopback : Bool
  pub is_link_local : Bool
  pub is_multicast : Bool
  pub is_reserved : Bool
  pub is_unspecified : Bool

-- The result of `urlparse`.
pub record ParsedUrl : Type 0 where
  pub scheme : String
  pub username : Option String
  pub password : Option String
  pub hostname : Option String

pub record Platform (FilePath : Type 0) : Type 0 where
  pub casefold : String → String
  pub strip : String → String
  pub rstrip_dots : String → String
  pub ends_with : String → String → Bool
  pub urlparse : String → ParsedUrl
  -- `none` is the `ValueError`.
  pub ip_address : String → Option Address
  -- `none` is `socket.gaierror`.
  pub getaddrinfo : String → Option (List Address)
  -- `Path(value).expanduser()`
  pub path : String → FilePath
  pub is_absolute : FilePath → Bool
  pub join : FilePath → FilePath → FilePath
  pub resolve : FilePath → FilePath
  pub is_relative_to : FilePath → FilePath → Bool
  -- `Path(value).name`
  pub file_name : String → String
  pub fnmatch : String → String → Bool

-- A JSON value; `scalar` stands for numbers, booleans and null.
mutual
  pub data Json : Type 0 where
    string : String → Json
    array : Items → Json
    object : Members → Json
    scalar : Json

  pub data Items : Type 0 where
    nil : Items
    item : Json → Items → Items

  pub data Members : Type 0 where
    end : Members
    member : String → Json → Members → Members
