-- ===== src/Http.antt =====
-- The requests that the clients of Hydra and Kratos send through net/http, as they stand before the
-- encoders: a query and a form by their entries, a JSON body by its fields. The network is a
-- parameter of the clients.
pub mod Query
use central_auth.Common.{ℕ, String, Bool, List}
use central_auth.Common.Assoc.{Assoc}

pub data Method : Type 0 where
  get post put delete : Method

-- A value given to `json.Marshal`
mutual
  pub data Json : Type 0 where
    text : String → Json
    flag : Bool → Json
    number : ℕ → Json
    texts : List String → Json
    object : Fields → Json

  pub data Fields : Type 0 where
    end : Fields
    field : String → Json → Fields → Fields

pub data Body : Type 0 where
  empty : Body
  form : Assoc String → Body
  json : Json → Body

-- `url` is the text that the code builds; `query` is what `url.Values` adds to it.
pub record Request : Type 0 where
  pub method : Method
  pub url : String
  pub query : Assoc String
  pub headers : Assoc String
  pub body : Body

-- `location` is the header of that name, empty where it is absent.
pub record Response : Type 0 where
  pub status : ℕ
  pub location : String
  pub body : String
