-- ===== src/Templates/Engine.antt =====
-- The Jinja2 environment `env()` of templates/__init__.py. The engine, and what the templates say,
-- are a parameter: a template's name and the keyword arguments give a text or an exception.
use dng_preflight.Base.{String, Bool, List, Dict, Result}
use dng_preflight.Models.Config.{DngConfig}

pub data Argument : Type 0 where
  whole_config : DngConfig → Argument
  text : String → Argument
  flag : Bool → Argument
  texts : List String → Argument

-- `env().get_template(name).render(**arguments)`
abbrev pub Render : Type 0
Render = (name : String) (arguments : Dict Argument) → Result String
